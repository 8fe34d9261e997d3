-- ===== src/Image/Model.antt =====
-- The data of internal/image: verified.go and write.go.
use diskforge.Base.{ℕ, Option, Bytes, codes}
use diskforge.Base.Int.{ℤ}

-- `Format`, any string
abbrev pub Format : Type 0
Format = Bytes

abbrev pub format_raw : Format
format_raw = codes "raw"

abbrev pub format_zstd : Format
format_zstd = codes "zstd"

-- `Verified`; a held file is known by its descriptor, and `none` is the nil file of a closed source.
pub record Verified : Type 0 where
  pub path : Bytes
  pub sha256 : Bytes
  pub format : Format
  pub compressed_bytes : ℤ
  pub file : Option ℕ

pub record Progress : Type 0 where
  pub written_bytes : ℤ
  pub expected_bytes : ℤ

-- `Result`, of a completed write
pub record WriteResult : Type 0 where
  pub written_bytes : ℤ
