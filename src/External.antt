-- ===== src/External.antt =====
-- What the program takes from outside its sources: SHA-256 of bytes as hexadecimal text
-- (hashlib), name-based UUIDs (uuid5, by the URL of the namespace and a name), and the UTF-8 encoding of a text.
-- They are parameters of the definitions that use them.
use gc_image_stream.Prelude.{ℕ, String, List}

abbrev pub Bytes : Type 0
Bytes = List ℕ

pub record External : Type 0 where
  pub sha256_hexdigest : Bytes → String
  pub uuid5 : String → String → String
  pub encode_utf8 : String → Bytes
