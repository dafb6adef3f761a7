-- ===== src/Realtime/Indices.antt =====
-- The two indices of backend/app/features/realtime/manager.py as dictionaries of sets.
use lc_connect.Base.{
  ℕ, ◌≡◌, refl, ◌∙◌, true, not, ◌&&◌, ◌||◌, List, [], ◌∷◌, arith, ◌==◌, if◌then◌else◌, Bool-cases,
  Option-cases, inl, inr, get, put, delete, get-put_eq, get-put_other, get-delete, has, add,
  discard, has-add, has-discard, set_at, index_add, index_remove, in_index, keep_nonempty, ap, sym,
  ℕ_discrete,
}
use lc_connect.Realtime.Manager.{detach_all}

pub set_at-put :
    (k j : ℕ) (s : List ℕ) (idx : List (ℕ × List ℕ))
    → set_at j (put k s idx) ≡ (if k == j then s else set_at j idx)
set_at-put k j s idx = elim (Bool-cases (k == j)) [
  | inl e ↦ rw (e, get-put_eq k j s idx e) refl
  | inr e ↦ rw (e, get-put_other k j s idx e) refl
]

set_at-delete :
    (k j : ℕ) (idx : List (ℕ × List ℕ))
    → set_at j (delete k idx) ≡ (if k == j then [] else set_at j idx)
set_at-delete k j idx = elim (Bool-cases (k == j)) [
  | inl e ↦ rw (get-delete k j idx, e) refl
  | inr e ↦ rw (get-delete k j idx, e) refl
]

set_at-same : (k j : ℕ) (idx : List (ℕ × List ℕ)) → (k == j) ≡ true → set_at k idx ≡ set_at j idx
set_at-same k j idx e = elim (ℕ_discrete k j) [
  | yes p ↦ ap (λ i. set_at i idx) p
  | no ne ↦ absurd (ne (ground arith))
]

pub in_index-index_add :
    (k a j b : ℕ) (idx : List (ℕ × List ℕ))
    → in_index j b (index_add k a idx) ≡ ((k == j && a == b) || in_index j b idx)
unfolding in_index index_add
in_index-index_add k a j b idx = elim (Bool-cases (k == j)) [
  | inl e ↦
      rw
        (
          set_at-put k j (add a (set_at k idx)) idx,
          e,
          has-add a b (set_at k idx),
          set_at-same k j idx e,
        )
        refl
  | inr e ↦ rw (set_at-put k j (add a (set_at k idx)) idx, e) refl
]

set_at-keep_nonempty :
    (k j : ℕ) (s : List ℕ) (idx : List (ℕ × List ℕ))
    → set_at j (keep_nonempty k s idx) ≡ (if k == j then s else set_at j idx)
set_at-keep_nonempty k j [] idx = set_at-delete k j idx
set_at-keep_nonempty k j (x ∷ s) idx = set_at-put k j (x ∷ s) idx

pub set_at-index_remove :
    (k a j : ℕ) (idx : List (ℕ × List ℕ))
    → set_at j (index_remove k a idx) ≡ (if k == j then discard a (set_at j idx) else set_at j idx)
unfolding index_remove discard
set_at-index_remove k a j idx = elim (Option-cases (get k idx)) [
  | inl e ↦ elim (Bool-cases (k == j)) [
    | inl f ↦ rw (f, index_remove, e, sym (set_at-same k j idx f), e) refl
    | inr f ↦ rw (f, index_remove, e) refl
  ]
  | inr (s, e) ↦ elim (Bool-cases (k == j)) [
    | inl f ↦
        rw
          (
            f,
            index_remove,
            e,
            set_at-keep_nonempty k j (discard a s) idx,
            f,
            sym (set_at-same k j idx f),
            e,
          )
          refl
    | inr f ↦ rw (f, index_remove, e, set_at-keep_nonempty k j (discard a s) idx, f) refl
  ]
]

pub in_index-index_remove :
    (k a j b : ℕ) (idx : List (ℕ × List ℕ))
    → in_index j b (index_remove k a idx) ≡ (in_index j b idx && not (k == j && a == b))
unfolding in_index
in_index-index_remove k a j b idx = elim (Bool-cases (k == j)) [
  | inl e ↦ rw (set_at-index_remove k a j idx, e, has-discard a b (set_at j idx)) refl
  | inr e ↦ rw (set_at-index_remove k a j idx, e) (ground arith)
]

pub in_index-detach_all :
    (c : ℕ) (vs : List ℕ) (j b : ℕ) (idx : List (ℕ × List ℕ))
    → in_index j b (detach_all c vs idx) ≡ (in_index j b idx && not (has j vs && c == b))
unfolding detach_all
in_index-detach_all c [] j b idx = ground arith
in_index-detach_all c (v ∷ vs) j b idx =
    in_index-detach_all c vs j b (index_remove v c idx)
    ∙ ground (arith, in_index-index_remove v c j b idx)
