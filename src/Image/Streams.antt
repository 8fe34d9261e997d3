-- ===== src/Image/Streams.antt =====
-- Readers and writers as internal/image uses them: package io, and `contextReader` and
-- `progressWriter` of write.go. A reader is the list of the pieces that its reads give, each at most
-- the caller's buffer long, and how it ends.
pub mod Laws
pub mod Bounds
pub mod Whole
use diskforge.Base.{
  ℕ, suc, ◌+◌, ◌-◌, Bool, true, false, Option, none, some, List, [], ◌∷◌, ◌++◌, Bytes, ltb, ◌==◌,
  length, take, drop, if◌then◌else◌,
}
use diskforge.Errors.{
  Error, Message, Result, ok, err, sentinel, wrapped, io_short_write, io_invalid_write, ◌>>=◌,
}
use diskforge.Go.Strings.{is_empty}

-- `finish` is none at the end of the file. `done` is what the context's `Err` gives at a read, by the
-- number of reads before it; a reader without a context has none at each.
pub record Reader : Type 0 where
  pub pieces : List Bytes
  pub finish : Option Error
  pub done : ℕ → Option Error

-- A destination: how many bytes of a piece it takes, and its error, given what it took before.
pub record Writer : Type 0 where
  pub accept : Bytes → Bytes → ℕ × Option Error
  pub sync : Bytes → Result (Unit {0})

-- `fmt.Errorf("…: %w", err)` around a failure
module _ {A : Type 0} where
  abbrev pub wrap_err : Message → Result A → Result A
  wrap_err m (ok a) = ok a
  wrap_err m (err e) = err (wrapped m e)

-- `io.Copy` into a hash: all the bytes, from the read `index` on.
unfoldable pub read_all : (ℕ → Option Error) → Option Error → ℕ → List Bytes → Result Bytes
read_all done finish index [] = elim (done index) [
  | some e ↦ err e
  | none ↦ elim finish [ none ↦ ok [] | some e ↦ err e ]
]
read_all done finish index (p ∷ ps) =
    let rest = read_all done finish (suc index) ps in
    elim (done index) [ some e ↦ err e | none ↦ rest >>= λ bytes. ok (p ++ bytes) ]

-- What a copy leaves: its error, what the destination holds, the counts that were reported, and the
-- reader's pieces and number of reads.
pub record Copied : Type 0 where
  pub failure : Option Error
  pub content : Bytes
  pub reports : List ℕ
  pub rest : List Bytes
  pub index : ℕ

abbrev stop : Option Error → Bytes → List Bytes → ℕ → Copied
stop failure content rest index = record {
  failure = failure;
  content = content;
  reports = [];
  rest = rest;
  index = index;
}

-- `progressWriter.Write` reports the running count if a byte was taken.
abbrev report : ℕ → ℕ → Copied → Copied
report n count copied =
    if ltb 0 n then record copied { reports = count ∷ copied.reports } else copied

-- What `io.Copy` does with the answer to a write of `q`; `next` is the copy's rest.
unfoldable pub judge : Bytes → ℕ × Option Error → Option Error
judge q (n, failure) = elim failure [
  | some e ↦ some e
  | none ↦
      if ltb (length q) n
      then some (sentinel io_invalid_write)
      else if ltb n (length q)
      then some (sentinel io_short_write)
      else none
]

module _ (writer : Writer) (done : ℕ → Option Error) (finish : Option Error) where
  -- `io.CopyBuffer` from `io.LimitReader(reader, remaining)` into the reporting destination.
  unfoldable pub copy_limited : ℕ → Bytes → ℕ → List Bytes → Copied
  unfolding judge
  copy_limited index content remaining [] =
      if remaining == 0 then stop none content [] index else elim (done index) [
        | some e ↦ stop (some e) content [] (suc index)
        | none ↦ stop finish content [] (suc index)
      ]
  copy_limited index content remaining (p ∷ ps) =
      let q = take remaining p in
      let answer = writer.accept content q in
      let taken = content ++ take (answer.0) q in
      let skipped = copy_limited (suc index) content remaining ps in
      let next = copy_limited (suc index) taken (remaining - length p) ps in
      if remaining == 0 then stop none content (p ∷ ps) index else elim (done index) [
        | some e ↦ stop (some e) content (p ∷ ps) (suc index)
        | none ↦ if is_empty p then skipped else elim (judge q answer) [
          | some e ↦
              report answer.0 (length content + answer.0)
                (stop (some e) taken (drop remaining p ∷ ps) (suc index))
          | none ↦ report answer.0 (length content + answer.0) (
              if ltb remaining (length p)
              then stop none taken (drop remaining p ∷ ps) (suc index)
              else next)
        ]
      ]

-- `io.ReadFull` of one byte: whether it came, or the error that ended the reader.
unfoldable pub read_extra : (ℕ → Option Error) → Option Error → ℕ → List Bytes → Bool × Option Error
read_extra done finish index [] = elim (done index) [
  | some e ↦ (false, some e)
  | none ↦ (false, finish)
]
read_extra done finish index (p ∷ ps) =
    let rest = read_extra done finish (suc index) ps in
    elim (done index) [
      | some e ↦ (false, some e)
      | none ↦ if is_empty p then rest else (true, none)
    ]
