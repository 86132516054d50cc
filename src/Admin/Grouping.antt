-- ===== src/Admin/Grouping.antt =====
-- cmd/telang/metadata_io.go: the parts of the uploads, one upload behind the other, are the table.
use Prim.Native.Nat.{Ordering}
use telang.Common.{
  ◌≡◌, ◌≢◌, refl, ap, false, none, List, [], ◌∷◌, ◌++◌, Str, str_eq, str_eq_iff, inl, inr,
  Bool-cases, arith,
}
use telang.Metadata.Order.{str_key, cmp_str, then_by, cmp_str_refl, cmp_str_trans, eq_of_cmp_str}
use telang.Metadata.Table.{find, Above, IsSorted}
use telang.Metadata.Store.{MultipartUpload, MultipartPart, upload_key, part_key, part_order, select}

-- The parts of one upload.
abbrev pub parts_of : Str → List MultipartPart → List MultipartPart
parts_of id ps = select (λ (p : MultipartPart). str_eq p.upload_id id) ps

unfoldable pub grouped : List MultipartUpload → List MultipartPart → List MultipartPart
grouped [] ps = []
grouped (m ∷ ms) ps = parts_of m.upload_id ps ++ grouped ms ps

-- Each part belongs to an upload.
abbrev pub AreOwned : List MultipartUpload → List MultipartPart → Type 0
AreOwned ms [] = Unit
AreOwned ms (p ∷ ps) = (find str_key upload_key p.upload_id ms ≢ none) × AreOwned ms ps

-- No part has this id.
abbrev Avoid : Str → List MultipartPart → Type 0
Avoid id [] = Unit
Avoid id (p ∷ ps) = (p.upload_id ≢ id) × Avoid id ps

Avoid-parts_of : (id : Str) (ps : List MultipartPart) → Avoid id ps → parts_of id ps ≡ []
unfolding select
Avoid-parts_of id [] h = refl
Avoid-parts_of id (p ∷ ps) (n, h) =
    ground (arith, Avoid-parts_of id ps h, str_eq_iff p.upload_id id)

grouped_empty : (ms : List MultipartUpload) → grouped ms [] ≡ []
unfolding grouped select
grouped_empty [] = refl
grouped_empty (m ∷ ms) = grouped_empty ms

-- A part of no upload of the list is left out.
grouped_skip :
    (ms : List MultipartUpload) (p : MultipartPart) (ps : List MultipartPart)
    → Above str_key upload_key p.upload_id ms
    → grouped ms (p ∷ ps) ≡ grouped ms ps
unfolding grouped select
grouped_skip [] p ps h = refl
grouped_skip (m ∷ ms) p ps (a, h) =
    ground
      (arith, grouped_skip ms p ps h, str_eq_iff p.upload_id m.upload_id, cmp_str_refl p.upload_id)

-- Behind a part that has a larger id than `id`, no part has `id`.
Above-Avoid :
    (id : Str) (p : MultipartPart) (ps : List MultipartPart)
    → cmp_str id p.upload_id ≡ Ordering.lt
    → Above part_order part_key (part_key p) ps
    → Avoid id ps
unfolding then_by
Above-Avoid id p [] l h = tt
Above-Avoid id p (q ∷ ps) l (a, h) = (
  λ e. ground (
    arith,
    cmp_str_trans id p.upload_id q.upload_id,
    eq_of_cmp_str p.upload_id q.upload_id,
    cmp_str_refl id,
  ),
  Above-Avoid id p ps l h,
)

-- An id that is found stands above what the list stands above.
found-Above :
    (i j : Str) (ms : List MultipartUpload)
    → find str_key upload_key j ms ≢ none
    → Above str_key upload_key i ms
    → cmp_str i j ≡ Ordering.lt
unfolding find
found-Above i j [] n h = absurd (n refl)
found-Above i j (m ∷ ms) n (a, h) = ground (arith, found-Above i j ms, eq_of_cmp_str j m.upload_id)

find_tail :
    (j : Str) (m : MultipartUpload) (ms : List MultipartUpload)
    → j ≢ m.upload_id
    → find str_key upload_key j (m ∷ ms) ≢ none
    → find str_key upload_key j ms ≢ none
unfolding find
find_tail j m ms d n = ground (arith, eq_of_cmp_str j m.upload_id)

AreOwned-tail :
    (m : MultipartUpload) (ms : List MultipartUpload) (ps : List MultipartPart)
    → Avoid m.upload_id ps
    → AreOwned (m ∷ ms) ps
    → AreOwned ms ps
AreOwned-tail m ms [] d o = tt
AreOwned-tail m ms (p ∷ ps) (e, d) (n, o) =
    (find_tail p.upload_id m ms e n, AreOwned-tail m ms ps d o)

differs : (i j : Str) → str_eq i j ≡ false → i ≢ j
differs i j h e = ground (arith, str_eq_iff i j)

pub grouped-sorted :
    (ms : List MultipartUpload) (ps : List MultipartPart)
    → IsSorted str_key upload_key ms
    → IsSorted part_order part_key ps
    → AreOwned ms ps
    → grouped ms ps ≡ ps
unfolding grouped select find
grouped-sorted [] [] s v o = refl
grouped-sorted [] (p ∷ ps) s v (n, o) = absurd (n refl)
grouped-sorted (m ∷ ms) [] s v o = grouped_empty (m ∷ ms)
grouped-sorted (m ∷ ms) (p ∷ ps) (a, s) (b, v) (n, o) =
    elim (Bool-cases (str_eq p.upload_id m.upload_id)) [
      | inl e ↦
          (let same = (str_eq_iff p.upload_id m.upload_id).0 e in
            let skip = grouped_skip ms p ps (rw (same) a) in
            rw (e, skip) (ap (λ t. p ∷ t) (grouped-sorted (m ∷ ms) ps (a, s) v o)))
      | inr e ↦
          (let d = differs p.upload_id m.upload_id e in
            let n' = find_tail p.upload_id m ms d n in
            let avoid =
              Above-Avoid m.upload_id p ps (found-Above m.upload_id p.upload_id ms n' a) b in
            rw (e, Avoid-parts_of m.upload_id ps avoid)
              (grouped-sorted ms (p ∷ ps) s (b, v) (n', AreOwned-tail m ms ps avoid o)))
    ]
