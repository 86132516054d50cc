-- ===== src/Multipart/Lookups.antt =====
-- internal/s3api/multipart.go: which rows and files an operation takes, and which it leaves.
use Prim.Native.Nat.{Ordering}
use telang.Common.{
  ℕ, ◌≡◌, ◌≢◌, ◌⊎◌, refl, sym, ap, ◌∙◌, none, List, [], ◌∷◌, Str, str_eq_refl, eq_of_str_eq, ok,
  arith, inl, inr,
}
use telang.Metadata.Order.{Key, str_key}
use telang.Metadata.Table.{find, remove}
use telang.Metadata.Store.{
  Db, MultipartUpload, MultipartPart, upload_key, part_order, part_key, select,
}
use telang.Metadata.Multipart
use telang.Metadata.Multipart.{get_multipart, list_parts, remove_parts}
use telang.Multipart.Staging.{PartFile, file_key, remove_all}
use telang.Multipart.Staged.{file_order, get_multipart-find}

pub find-remove_parts_self :
    (u : Str) (n : ℕ) (t : List MultipartPart)
    → find part_order part_key (u, n) (remove_parts u t) ≡ none
unfolding find remove_parts
find-remove_parts_self u n [] = refl
find-remove_parts_self u n (p ∷ t) =
    ground
      (arith, find-remove_parts_self u n t, part_order.eq_of_cmp (u, n) (part_key p), str_eq_refl u)

pub find-remove_parts_ne :
    (u v : Str) (n : ℕ) (t : List MultipartPart)
    → v ≢ u
    → find part_order part_key (v, n) (remove_parts u t) ≡ find part_order part_key (v, n) t
unfolding find remove_parts
find-remove_parts_ne u v n [] h = refl
find-remove_parts_ne u v n (p ∷ t) h = ground (
  arith,
  find-remove_parts_ne u v n t h,
  part_order.eq_of_cmp (v, n) (part_key p),
  eq_of_str_eq p.upload_id u,
)

pub find-remove_all :
    (dir other : Str) (n : ℕ) (t : List PartFile)
    → other ≢ dir
    → find file_order file_key (other, n) (remove_all dir t) ≡ find file_order file_key (other, n) t
unfolding find remove_all select
find-remove_all dir other n [] h = refl
find-remove_all dir other n (f ∷ t) h = ground (
  arith,
  find-remove_all dir other n t h,
  file_order.eq_of_cmp (other, n) (file_key f),
  eq_of_str_eq f.dir dir,
)

pub find-remove_all_self :
    (dir : Str) (n : ℕ) (t : List PartFile)
    → find file_order file_key (dir, n) (remove_all dir t) ≡ none
unfolding find remove_all select
find-remove_all_self dir n [] = refl
find-remove_all_self dir n (f ∷ t) = ground (
  arith,
  find-remove_all_self dir n t,
  file_order.eq_of_cmp (dir, n) (file_key f),
  str_eq_refl dir,
)

-- Two keys are the same or not.
pub key-cases : {K : Type 0} (k : Key K) (a b : K) → (a ≡ b) ⊎ (a ≢ b)
key-cases k a b = go (k.cmp a b) refl
  where
    go : (o : Ordering) → k.cmp a b ≡ o → (a ≡ b) ⊎ (a ≢ b)
    go Ordering.eq e = inl (k.eq_of_cmp a b e)
    go Ordering.lt e = inr (λ p. ground (arith, ap (λ z. k.cmp z b) (sym p) ∙ e, k.cmp_refl b))
    go Ordering.gt e = inr (λ p. ground (arith, ap (λ z. k.cmp z b) (sym p) ∙ e, k.cmp_refl b))

pub delete_multipart_ok :
    (u : Str) (m : MultipartUpload) (db : Db)
    → get_multipart u db ≡ ok m
    → Multipart.delete_multipart u db ≡ (
      ok tt,
      record db {
        parts = remove_parts u db.parts;
        uploads = remove str_key upload_key u db.uploads;
      },
    )
unfolding Multipart.delete_multipart
delete_multipart_ok u m db h = rw (get_multipart-find u m db h, Multipart.delete_multipart) refl
