-- ===== src/Datahub/Invariant/Lists.antt =====
-- Appending to the snapshots and the items of a dataset.
use yolo_ave_mujica.Base.{
  ℕ, suc, ◌+◌, ◌≡◌, ◌≤◌, refl, sym, ◌∙◌, ap, inl, inr, false, ◌||◌, Text, text_key, text_beq_iff,
  ◌==◌, is_empty, lit, decimal, List, [], ◌∷◌, ◌++◌, arith, Bool-cases,
}
use yolo_ave_mujica.Datahub.Model.{Snapshot, DatasetItem, ScannedObject}
use yolo_ave_mujica.Datahub.Repository.{count}
use yolo_ave_mujica.Datahub.Items.{has_key, new_item, upsert}
use yolo_ave_mujica.Datahub.Invariant.{Versioned, Stock}

pub Versioned-mono :
    (k i low next next' : ℕ) (xs : List Snapshot)
    → next ≤ next'
    → Versioned k i low next xs
    → Versioned k i low next' xs
Versioned-mono k i low next next' [] le h = omega arith
Versioned-mono k i low next next' (x ∷ xs) le (d, v, l, h) =
    (d, v, l, Versioned-mono k (suc i) (suc x.id) next next' xs le h)

pub Versioned-append :
    (k i low next : ℕ) (xs : List Snapshot) (x : Snapshot)
    → x.dataset_id ≡ k
    → x.version ≡ lit "v" ++ decimal (suc (i + count xs))
    → x.id ≡ next
    → Versioned k i low next xs
    → Versioned k i low (suc next) (xs ++ (x ∷ []))
Versioned-append k i low next [] x d v own h =
    let first : i + 0 ≡ i = omega arith in
    (d, v ∙ ap (λ n. lit "v" ++ decimal (suc n)) first, omega arith, omega arith)
Versioned-append k i low next (y ∷ ys) x d v own (d', v', l, h) =
    let moved : i + suc (count ys) ≡ suc i + count ys = omega arith in
    (
      d',
      v',
      l,
      Versioned-append k (suc i) (suc y.id) next ys x d
          (v ∙ ap (λ n. lit "v" ++ decimal (suc n)) moved) own h,
    )

pub Stock-mono :
    (k low next next' : ℕ) (xs : List DatasetItem)
    → next ≤ next'
    → Stock k low next xs
    → Stock k low next' xs
Stock-mono k low next next' [] le h = omega arith
Stock-mono k low next next' (x ∷ xs) le (d, n, e, l, f, h) =
    (d, n, e, l, f, Stock-mono k (suc x.id) next next' xs le h)

has_key-append :
    (key : Text) (xs : List DatasetItem) (x : DatasetItem)
    → has_key key xs ≡ false
    → (x.object_key == key) ≡ false
    → has_key key (xs ++ (x ∷ [])) ≡ false
unfolding has_key
has_key-append key [] x h e = rw e refl
has_key-append key (y ∷ ys) x h e = elim (Bool-cases (y.object_key == key)) [
  | inl f ↦ let g = rw f at h in cc
  | inr f ↦ rw (f, has_key-append key ys x (rw f at h) e) refl
]

has_key-cons :
    (key : Text) (y : DatasetItem) (ys : List DatasetItem)
    → has_key key (y ∷ ys) ≡ false
    → ((y.object_key == key) ≡ false) × (has_key key ys ≡ false)
unfolding has_key
has_key-cons key y ys h = elim (Bool-cases (y.object_key == key)) [
  | inl f ↦ let g = rw f at h in cc
  | inr f ↦ (f, rw f at h)
]

differs : (s t : Text) → (s == t) ≡ false → (t == s) ≡ false
differs s t h = elim (Bool-cases (t == s)) [
  | inl e ↦ let f = (text_beq_iff s t).1 (sym ((text_beq_iff t s).0 e)) in cc
  | inr e ↦ e
]

Stock-append :
    (k low next : ℕ) (xs : List DatasetItem) (x : DatasetItem)
    → x.dataset_id ≡ k
    → is_empty x.object_key ≡ false
    → is_empty x.etag ≡ false
    → x.id ≡ next
    → has_key x.object_key xs ≡ false
    → Stock k low next xs
    → Stock k low (suc next) (xs ++ (x ∷ []))
unfolding has_key
Stock-append k low next [] x d n e own fresh h = (d, n, e, omega arith, refl, omega arith)
Stock-append k low next (y ∷ ys) x d n e own fresh (d', n', e', l, f, h) =
    let (other, later) = has_key-cons x.object_key y ys fresh in
    (
      d',
      n',
      e',
      l,
      has_key-append y.object_key ys x f (differs y.object_key x.object_key other),
      Stock-append k (suc y.id) next ys x d n e own later h,
    )

new_item-etag : (id dataset : ℕ) (o : ScannedObject) → is_empty (new_item id dataset o).etag ≡ false
unfolding new_item lit
new_item-etag id dataset o = elim (Bool-cases (is_empty o.etag)) [
  | inl e ↦ rw e refl
  | inr e ↦ rw e e
]

new_item_parts :
    (id dataset : ℕ) (o : ScannedObject)
    → ((new_item id dataset o).id ≡ id)
      × ((new_item id dataset o).dataset_id ≡ dataset)
      × ((new_item id dataset o).object_key ≡ o.key)
unfolding new_item
new_item_parts id dataset o = (refl, refl, refl)

pub upsert-Stock :
    (k : ℕ) (os : List ScannedObject) (next : ℕ) (items : List DatasetItem) (added : ℕ)
    → Stock k 0 next items
    → let (next', items', added') = upsert k os next items added in
      Stock k 0 next' items' × (next ≤ next')
unfolding upsert
upsert-Stock k [] next items added h = (h, omega arith)
upsert-Stock k (o ∷ os) next items added h =
    elim (Bool-cases (is_empty o.key || has_key o.key items)) [
      | inl e ↦ rw (e, upsert) (upsert-Stock k os next items added h)
      | inr e ↦
          let empty : is_empty o.key ≡ false = ground arith in
          let fresh : has_key o.key items ≡ false = ground arith in
          let (own, home, key) = new_item_parts next k o in
          let more =
            Stock-append k 0 next items (new_item next k o) home (rw key empty)
              (new_item-etag next k o) own (rw key fresh) h in
          let (stock, grown) =
            upsert-Stock k os (suc next) (items ++ (new_item next k o ∷ [])) (suc added) more in
          rw (e, upsert) (stock, omega arith)
    ]
