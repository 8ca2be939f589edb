-- ===== src/Verify/Digest.antt =====
-- `digestObj` of internal/verify/verify.go: the digest of an artifact, of what `json.Marshal` gives, or no
-- digest where that fails. SHA-256 in hexadecimal digits, `json.Unmarshal` and `json.Marshal` of a value
-- without a type are arguments.
use architecture_rehearsal.Prelude.{String, Option, none, some}

module _ {Value : Type 0} (hash : String → String) (decode : String → Option Value)
    (encode : Value → String) where
  abbrev re_encoded : Option Value → String → String
  re_encoded none raw = raw
  re_encoded (some v) raw = encode v

  abbrev pub digest_obj : Option String → Option String
  digest_obj none = none
  digest_obj (some raw) = some (hash (re_encoded (decode raw) raw))
