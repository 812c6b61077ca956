-- ===== src/Events/Subjects.antt =====
-- domainevents/subjects.go, and the contract's message `DomainEvent` over the type of its payloads.
use code_code_platform_catal.Prelude.{
  ℕ, ◌≡◌, refl, Bool, false, ◌||◌, ◌++◌, ◌∷◌, map, Option, none, some, arith, inl, inr, Bool-cases,
  if◌then◌else◌, ◌==◌, nat_eq, All, All-map, All-of,
}
use code_code_platform_catal.Text.{Text, codes, text_eq, is_empty, to_lower, trim_space}

pub record DomainEvent (P : Type 0) : Type 0 where
  pub event_id : Text
  pub event_type : Text
  pub aggregate_type : Text
  pub aggregate_id : Text
  pub aggregate_version : ℕ
  pub occurred_at : Option ℕ
  pub producer : Text
  pub payload : P

unfoldable pub subject_prefix : Text
subject_prefix = codes "platform.domain"

-- The three calls of `ReplaceAll`, each of one byte by one byte.
unfoldable pub subject_byte : ℕ → ℕ
subject_byte c = if c == b'.' || c == b'*' || c == b'>' then b'_' else c

unfoldable pub subject_token : Text → Text
subject_token value =
    let v = map subject_byte (trim_space (to_lower value)) in if is_empty v then codes "_" else v

unfoldable pub changed_if_blank : Text → Text
changed_if_blank mutation =
    if is_empty mutation || mutation == codes "_" then codes "changed" else mutation

unfoldable pub subject_for : {P : Type 0} → Option (DomainEvent P) → Text
subject_for none = subject_prefix ++ codes ".unknown"
subject_for (some event) =
    subject_prefix
    ++ (b'.'
        ∷ (subject_token event.aggregate_type
            ++ (b'.' ∷ changed_if_blank (subject_token (to_lower event.event_type)))))

-- The bytes that have a meaning in the subjects of the stream.
abbrev pub is_special : ℕ → Bool
is_special c = c == b'.' || c == b'*' || c == b'>'

-- A part of a subject: it is not empty and has no such byte.
pub record IsToken (t : Text) : Type 0 where
  pub not_empty : is_empty t ≡ false
  pub plain : All (λ c. is_special c ≡ false) t

subject_byte-is_special : (c : ℕ) → is_special (subject_byte c) ≡ false
unfolding subject_byte
subject_byte-is_special c = ground arith

subject_token-IsToken : (value : Text) → IsToken (subject_token value)
unfolding subject_token
subject_token-IsToken value =
    elim (Bool-cases (is_empty (map subject_byte (trim_space (to_lower value))))) [
      | inl blank ↦ rw blank (record { not_empty = refl; plain = (refl, tt) })
      | inr named ↦ rw named (record {
        not_empty = named;
        plain =
            All-map {P = λ _. Unit} _ subject_byte _ (λ c _. subject_byte-is_special c)
              (All-of (λ _. tt) (trim_space (to_lower value)));
      })
    ]

changed_if_blank-IsToken : (t : Text) → IsToken t → IsToken (changed_if_blank t)
unfolding changed_if_blank
changed_if_blank-IsToken t h = elim (Bool-cases (is_empty t || t == codes "_")) [
  | inl blank ↦ rw blank (record {
    not_empty = refl;
    plain = (refl, (refl, (refl, (refl, (refl, (refl, (refl, tt)))))));
  })
  | inr named ↦ rw named h
]

-- The subject of an event is the prefix and two parts, for its aggregate and for its change, and
-- neither part is empty or has a dot or a wildcard.
pub subject_for-IsToken :
    {P : Type 0} (event : DomainEvent P)
    → (aggregate : Text) × (mutation : Text) × (subject_for (some event)
        ≡ subject_prefix ++ (b'.' ∷ (aggregate ++ (b'.' ∷ mutation))))
      × IsToken aggregate
      × IsToken mutation
unfolding subject_for
subject_for-IsToken event = (
  subject_token event.aggregate_type,
  changed_if_blank (subject_token (to_lower event.event_type)),
  refl,
  subject_token-IsToken event.aggregate_type,
  changed_if_blank-IsToken _ (subject_token-IsToken (to_lower event.event_type)),
)
