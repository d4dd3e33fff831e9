-- ===== src/Frontend/Storage.antt =====
-- frontend/app/utils/storage/local-storage.ts, over the browser's localStorage and JSON.
use web3_point_exchange.Common.{
  ◌≡◌, refl, ◌⊎◌, inl, inr, Bool, true, false, Option, none, some, List, [], ◌∷◌, if◌then◌else◌,
}

pub data StorageKey : Type 0 where
  user_data : StorageKey

-- `none` when a call throws. A store forgets nothing, and `clear` leaves no item; JSON reads back what
-- it has written, which is never the empty text 0.
pub record LocalStorage : Type 1 where
  pub Text : Type 0
  pub is_empty : Text → Bool
  pub Store : Type 0
  pub get_item : StorageKey → Store → Option (Option Text)
  pub set_item : StorageKey → Text → Store → Option Store
  pub remove_item : StorageKey → Store → Option Store
  pub clear : Store → Option Store
  pub set_item_law :
      (k : StorageKey) (t : Text) (s : Store)
      → (set_item k t s ≡ none)
        ⊎ ((s' : Store) × (set_item k t s ≡ some s') × (get_item k s' ≡ some (some t)))
  pub remove_item_law :
      (k : StorageKey) (s : Store)
      → (remove_item k s ≡ none)
        ⊎ ((s' : Store) × (remove_item k s ≡ some s') × (get_item k s' ≡ some none))

-- `JSON.stringify` and `JSON.parse` for the values of a type: what is written is read back, and is not
-- the empty text.
pub record Codec ⦃l : LocalStorage⦄ (T : Type 0) : Type 0 where
  pub stringify : T → l.Text
  pub parse : l.Text → Option T
  pub parse_law : (x : T) → parse (stringify x) ≡ some x
  pub stringify_law : (x : T) → l.is_empty (stringify x) ≡ false

module _ ⦃l : LocalStorage⦄ where
  -- What a `catch` that only logs leaves.
  abbrev pub or_same : l.Store → Option l.Store → l.Store
  or_same s none = s
  or_same s (some s') = s'

  unfoldable pub remove_from_storage : StorageKey → l.Store → l.Store
  remove_from_storage k s = or_same s (l.remove_item k s)

  unfoldable pub clear_all_storage : l.Store → l.Store
  clear_all_storage s = or_same s (l.clear s)

  unfoldable pub remove_multiple_from_storage : List StorageKey → l.Store → l.Store
  unfolding remove_from_storage
  remove_multiple_from_storage [] s = s
  remove_multiple_from_storage (k ∷ ks) s =
      remove_multiple_from_storage ks (remove_from_storage k s)

module _ {T : Type 0} ⦃l : LocalStorage⦄ ⦃c : Codec T⦄ where
  unfoldable pub save_to_storage : StorageKey → T → l.Store → l.Store
  save_to_storage k x s = or_same s (l.set_item k (c.stringify x) s)

  -- `data ? JSON.parse(data) : null`; a throw gives null too.
  abbrev pub parse_item : Option (Option l.Text) → Option T
  parse_item none = none
  parse_item (some none) = none
  parse_item (some (some t)) = if l.is_empty t then none else c.parse t

  unfoldable pub load_from_storage : StorageKey → l.Store → Option T
  load_from_storage k s = parse_item (l.get_item k s)

  -- `updates` is `{ ...currentData, ...updates }`.
  unfoldable pub update_storage_data : StorageKey → (T → T) → l.Store → l.Store
  unfolding load_from_storage save_to_storage
  update_storage_data k updates s = elim (load_from_storage k s) [
    | none ↦ s
    | some x ↦ save_to_storage k (updates x) s
  ]

  -- What is saved is loaded again, or the store refused it and is as before.
  pub load_from_storage-save :
      (k : StorageKey) (x : T) (s : l.Store)
      → (load_from_storage k (save_to_storage k x s) ≡ some x) ⊎ (save_to_storage k x s ≡ s)
  unfolding load_from_storage save_to_storage
  load_from_storage-save k x s = elim (l.set_item_law k (c.stringify x) s) [
    | inl e ↦ inr (rw (e, save_to_storage) refl)
    | inr (s', e, g) ↦ inl (
        rw (e, save_to_storage)
          (rw (g, load_from_storage) (rw (c.stringify_law x) (c.parse_law x))))
  ]

  -- After a removal nothing is loaded, or the store refused it and is as before.
  pub load_from_storage-remove :
      (k : StorageKey) (s : l.Store)
      → (load_from_storage k (remove_from_storage k s) ≡ none) ⊎ (remove_from_storage k s ≡ s)
  unfolding load_from_storage remove_from_storage
  load_from_storage-remove k s = elim (l.remove_item_law k s) [
    | inl e ↦ inr (rw (e, remove_from_storage) refl)
    | inr (s', e, g) ↦ inl (rw (e, remove_from_storage) (rw (g, load_from_storage) refl))
  ]

  -- An update of what is there is loaded again with the update, or the store refused it and is as
  -- before; when nothing is there, nothing is written.
  pub load_from_storage-update :
      (k : StorageKey) (f : T → T) (s : l.Store)
      → ((load_from_storage k s ≡ none) × (update_storage_data k f s ≡ s))
        ⊎ (update_storage_data k f s ≡ s)
        ⊎ ((x : T) × (load_from_storage k s ≡ some x)
            × (load_from_storage k (update_storage_data k f s) ≡ some (f x)))
  unfolding update_storage_data
  load_from_storage-update k f s = go (load_from_storage k s) refl
    where
      go :
          (o : Option T)
          → load_from_storage k s ≡ o
          → ((load_from_storage k s ≡ none) × (update_storage_data k f s ≡ s))
            ⊎ (update_storage_data k f s ≡ s)
            ⊎ ((x : T) × (load_from_storage k s ≡ some x)
                × (load_from_storage k (update_storage_data k f s) ≡ some (f x)))
      go none e = inl (e, rw (e, update_storage_data) refl)
      go (some x) e = elim (load_from_storage-save k (f x) s) [
        | inl g ↦ inr (inr (x, e, rw (e, update_storage_data) g))
        | inr g ↦ inr (inl (rw (e, update_storage_data) g))
      ]

abbrev is_some : {T : Type 0} → Option T → Bool
is_some none = false
is_some (some x) = true

-- `T` is the type that the item is read as.
unfoldable pub has_storage_data :
    (T : Type 0) ⦃l : LocalStorage⦄ ⦃c : Codec T⦄ → StorageKey → l.Store → Bool
unfolding load_from_storage
has_storage_data T k s = is_some (load_from_storage {T = T} k s)
