-- ===== src/Base/Text.antt =====
-- What the program uses of the package strings.
use dash_fabric.Base.{
  ℕ, ◌-◌, Bool, List, [], ◌∷◌, Bytes, bytes_eq, ◌==◌, if◌then◌else◌, length, take, drop, nat_beq,
  leb, ◌&&◌,
}

-- strings.HasPrefix, strings.HasSuffix, strings.TrimPrefix and strings.TrimSuffix
abbrev pub has_prefix : Bytes → Bytes → Bool
has_prefix prefix s = take (length prefix) s == prefix

abbrev pub has_suffix : Bytes → Bytes → Bool
has_suffix suffix s = leb (length suffix) (length s) && drop (length s - length suffix) s == suffix

abbrev pub trim_prefix : Bytes → Bytes → Bytes
trim_prefix prefix s = if has_prefix prefix s then drop (length prefix) s else s

abbrev pub trim_suffix : Bytes → Bytes → Bytes
trim_suffix suffix s = if has_suffix suffix s then take (length s - length suffix) s else s

-- strings.Split at a byte
abbrev pub extend : ℕ → List Bytes → List Bytes
extend b [] = (b ∷ []) ∷ []
extend b (part ∷ parts) = (b ∷ part) ∷ parts

abbrev pub split : ℕ → Bytes → List Bytes
split sep [] = [] ∷ []
split sep (b ∷ bs) = let rest = split sep bs in if nat_beq b sep then [] ∷ rest else extend b rest
