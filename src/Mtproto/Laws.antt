-- ===== src/Mtproto/Laws.antt =====
-- internal/storage/mtproto/mtproto.go: which document is resolved, and when one exists.
use telang.Common.{
  ℕ, ◌≡◌, ◌↔◌, refl, ap, ◌∙◌, inl, inr, Option-cases, true, false, none, some, List, [], ◌∷◌, ◌++◌,
  Str, Result, ok, err, arith,
}
use telang.Crypto.Stream.{ReadError}
use telang.Storage.Interface.{
  Ref, StorageError, not_found, too_large, throttled, unavailable, other_failure,
}
use telang.Mtproto.Messages.{Document, Message, document_of, find_document}
use telang.Mtproto.Backend.{Client, resolve_document, got, get, exists, document_exists}

-- No message has a document.
abbrev pub HasNone : List Message → Type 0
HasNone [] = Unit
HasNone (m ∷ ms) = (document_of m ≡ none) × HasNone ms

-- The first message with a document has this one.
abbrev pub IsFirst : List Message → Document → Type 0
IsFirst ms d =
    (before : List Message) × (id : ℕ) × (m : Message) × (after : List Message) × (ms
      ≡ before ++ m ∷ after)
    × HasNone before
    × (document_of m ≡ some (id, d))

pub find_document-none : (ms : List Message) → (find_document ms ≡ none) ↔ HasNone ms
unfolding find_document
find_document-none [] = (λ h. tt, λ h. refl)
find_document-none (m ∷ ms) = ground (arith, find_document-none ms)

find_document-IsFirst :
    (ms : List Message) (d : Document) → find_document ms ≡ some d → IsFirst ms d
unfolding find_document
find_document-IsFirst [] d h = ground arith
find_document-IsFirst (m ∷ ms) d h = elim (Option-cases (document_of m)) [
  | inl e ↦
      (let h' : find_document ms ≡ some d = ground arith in
        let (before, id, m', after, q, n, f) = find_document-IsFirst ms d h' in
        (m ∷ before, id, m', after, ap (λ l. m ∷ l) q, (e, n), f))
  | inr ((id, d'), e) ↦
      (let same : d' ≡ d = ground arith in
        ([], id, m, ms, refl, tt, e ∙ ap (λ u. some (id, u)) same))
]

first_find_document :
    (before after : List Message) (m : Message) (id : ℕ) (d : Document)
    → HasNone before
    → document_of m ≡ some (id, d)
    → find_document (before ++ m ∷ after) ≡ some d
unfolding find_document
first_find_document [] after m id d n f = ground arith
first_find_document (b ∷ before) after m id d (e, n) f =
    ground (arith, first_find_document before after m id d n f)

pub find_document-some :
    (ms : List Message) (d : Document) → (find_document ms ≡ some d) ↔ IsFirst ms d
find_document-some ms d = (
  find_document-IsFirst ms d,
  λ (before, id, m, after, q, n, f).
      ap find_document q ∙ first_find_document before after m id d n f,
)

module _ {S F : Type 0} (c : Client S F) where
  exists-got :
      (r : Result StorageError Document) (s : S)
      → ((document_exists c r ≡ ok true) ↔ ((b : Str × ReadError) × (got c r s ≡ ok b)))
        × ((document_exists c r ≡ ok false) ↔ (got c r s ≡ err not_found))
  unfolding got document_exists
  exists-got (ok d) s = ((λ h. (c.download d s, refl), λ b. refl), ground arith)
  exists-got (err not_found) s =
      ((λ h. absurd (ground arith), λ (b, q). absurd (ground arith)), ground arith)
  exists-got (err too_large) s =
      ((λ h. absurd (ground arith), λ (b, q). absurd (ground arith)), ground arith)
  exists-got (err throttled) s =
      ((λ h. absurd (ground arith), λ (b, q). absurd (ground arith)), ground arith)
  exists-got (err unavailable) s =
      ((λ h. absurd (ground arith), λ (b, q). absurd (ground arith)), ground arith)
  exists-got (err other_failure) s =
      ((λ h. absurd (ground arith), λ (b, q). absurd (ground arith)), ground arith)

  -- On every answer of the client, Exists returns true exactly if Get returns a reader, returns
  -- false exactly if Get fails with ErrNotFound, and leaves the same state.
  pub exists-get :
      (ref : Ref) (s : S)
      → (((exists c ref s).0 ≡ ok true) ↔ ((b : Str × ReadError) × ((get c ref s).0 ≡ ok b)))
        × (((exists c ref s).0 ≡ ok false) ↔ ((get c ref s).0 ≡ err not_found))
        × ((exists c ref s).1 ≡ (get c ref s).1)
  unfolding exists get
  exists-get ref s =
      let (found, s') = resolve_document c ref.message_id s in
      let (present, missing) = exists-got found s' in (present, missing, refl)
