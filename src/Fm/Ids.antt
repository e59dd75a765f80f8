-- ===== src/Fm/Ids.antt =====
-- src/FM/pkg/types/ids.go and versions.go: the gate on identifiers, and revision numbers.
mod Tests
use dash_fabric.Base.{
  ℕ, ◌<◌, ◌≤◌, ◌≡◌, refl, ◌↔◌, ◌⊎◌, inl, inr, ◌≢◌, Bool, true, false, ◌||◌, List, [], ◌∷◌, Option,
  none, some, arith, Bytes, nat_eq, nat_beq, bytes_beq, length, contains, All, ltb, if◌then◌else◌,
  ◌>>◌, fail_if, Bool-cases,
}
use dash_fabric.Base.Int.{ℤ, pos, negsuc, ltb_ℤ, pos_part, neg_part}

abbrev pub max_id_len : ℕ
max_id_len = 256

pub data IdError : Type 0 where
  empty : IdError
  too_long : ℕ → IdError
  has_space : IdError

-- " \t\n\r\x00"
abbrev pub forbidden : List ℕ
forbidden = 32 ∷ 9 ∷ 10 ∷ 13 ∷ 0 ∷ []

-- strings.ContainsAny for a set of ASCII characters
unfoldable pub contains_any : Bytes → List ℕ → Bool
contains_any [] chars = false
contains_any (c ∷ s) chars = contains c chars || contains_any s chars

unfoldable pub validate_id : Bytes → Option IdError
validate_id s = do
  fail_if (nat_beq (length s) 0) empty
  fail_if (ltb max_id_len (length s)) (too_long (length s))
  fail_if (contains_any s forbidden) has_space

-- The typed constructors return the identifier beside the verdict.
unfoldable pub new_id : Bytes → Bytes × Option IdError
new_id s = (s, validate_id s)

unfoldable pub is_zero : Bytes → Bool
is_zero s = bytes_beq s []

-- SpecRevision.Newer, Epoch.Bumped and Watermark.Regressed
unfoldable pub newer : ℤ → ℤ → Bool
newer s other = ltb_ℤ other s

unfoldable pub bumped : ℤ → ℤ → Bool
bumped s other = ltb_ℤ other s

unfoldable pub regressed : ℤ → ℤ → Bool
regressed w prev = ltb_ℤ w prev

-- The contract of an identifier.
pub record IsId (s : Bytes) : Type 0 where
  pub nonempty : 0 < length s
  pub short : length s ≤ max_id_len
  pub clean : All (λ c. contains c forbidden ≡ false) s

clean_of_not-contains_any :
    (s : Bytes) (chars : List ℕ)
    → (contains_any s chars ≡ false) ↔ All (λ c. contains c chars ≡ false) s
unfolding contains_any
clean_of_not-contains_any [] chars = (λ h. tt, λ h. refl)
clean_of_not-contains_any (c ∷ s) chars =
    let ih = clean_of_not-contains_any s chars in
    (λ h. (ground arith, ih.0 (ground arith)), λ h. ground (arith, ih.1 h.1))

-- An identifier passes the gate exactly when it is nonempty, at most 256 bytes long, and free of
-- whitespace and NUL.
pub validate_id_iff : (s : Bytes) → (validate_id s ≡ none) ↔ IsId s
unfolding validate_id
validate_id_iff s =
    let clean = clean_of_not-contains_any s forbidden in
    (
      λ h. record { nonempty = ground arith; short = ground arith; clean = clean.0 (ground arith) },
      λ h. ground (arith, clean.1 h.clean),
    )

newer_connex : (a b : ℤ) → (newer a b ≡ true) ⊎ (newer b a ≡ true) ⊎ (a ≡ b)
unfolding newer
newer_connex (pos a) (pos b) = ground arith
newer_connex (pos a) (negsuc b) = ground arith
newer_connex (negsuc a) (pos b) = ground arith
newer_connex (negsuc a) (negsuc b) = ground arith

-- Of two revisions exactly one holds: the first is newer, the second is, or they are equal; and a
-- watermark regressed exactly when the one before it is newer.
pub newer_trichotomy :
    (a b : ℤ)
    → ((newer a b ≡ true) ⊎ (newer b a ≡ true) ⊎ (a ≡ b))
      × (newer a b ≡ true → (newer b a ≡ false) × (a ≢ b))
      × (regressed b a ≡ newer a b)
unfolding newer regressed
newer_trichotomy a b = (newer_connex a b, λ h. (ground arith, ground arith), refl)
