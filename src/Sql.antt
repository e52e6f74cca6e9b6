-- ===== src/Sql.antt =====
-- The statements of src/database/*.rs over a table, which is the list of its rows in the order of
-- insertion: SELECT … WHERE, UPDATE … WHERE, DELETE … WHERE, COUNT(*) FILTER, EXISTS, ORDER BY.
pub mod Update
pub mod Upsert
pub mod OrderBy
pub mod Unique
pub mod Chosen
use mail_subsystem.Prelude.{
  ℕ, suc, ◌+◌, Bool, true, false, ◌||◌, List, [], ◌∷◌, Option, none, some, ◌==◌, if◌then◌else◌, lex,
}

module _ {A : Type 0} where
  unfoldable pub select_where : (A → Bool) → List A → List A
  select_where p [] = []
  select_where p (x ∷ xs) = let rest = select_where p xs in if p x then x ∷ rest else rest

  unfoldable pub update_where : (A → Bool) → (A → A) → List A → List A
  update_where p f [] = []
  update_where p f (x ∷ xs) = (if p x then f x else x) ∷ update_where p f xs

  unfoldable pub delete_where : (A → Bool) → List A → List A
  delete_where p [] = []
  delete_where p (x ∷ xs) = let rest = delete_where p xs in if p x then rest else x ∷ rest

  unfoldable pub count_where : (A → Bool) → List A → ℕ
  count_where p [] = 0
  count_where p (x ∷ xs) = (if p x then 1 else 0) + count_where p xs

  unfoldable pub exists_where : (A → Bool) → List A → Bool
  exists_where p [] = false
  exists_where p (x ∷ xs) = p x || exists_where p xs

  -- The first row that fits, for a statement that returns at most one.
  unfoldable pub find_where : (A → Bool) → List A → Option A
  find_where p [] = none
  find_where p (x ∷ xs) = let rest = find_where p xs in if p x then some x else rest

  -- INSERT … ON CONFLICT DO UPDATE: the row that conflicts is updated, or the new one is added.
  unfoldable pub upsert_where : (A → Bool) → (A → A) → A → List A → List A
  upsert_where p f new [] = new ∷ []
  upsert_where p f new (x ∷ xs) =
      let rest = upsert_where p f new xs in if p x then f x ∷ xs else x ∷ rest

  -- ORDER BY, by insertion; `before` is the strict order of the sort keys.
  unfoldable pub insert_by : (A → A → Bool) → A → List A → List A
  insert_by before x [] = x ∷ []
  insert_by before x (y ∷ ys) =
      let rest = insert_by before x ys in if before y x then y ∷ rest else x ∷ y ∷ ys

  unfoldable pub order_by : (A → A → Bool) → List A → List A
  unfolding insert_by
  order_by before [] = []
  order_by before (x ∷ xs) = insert_by before x (order_by before xs)

-- ORDER BY key, key, …, each ASC.
unfoldable pub keys_before : List ℕ → List ℕ → Bool
keys_before [] [] = false
keys_before [] (b ∷ bs) = true
keys_before (a ∷ as') [] = false
keys_before (a ∷ as') (b ∷ bs) = lex a b (keys_before as' bs)

-- `id = ANY(ids)`.
unfoldable pub any_id : List ℕ → ℕ → Bool
any_id [] i = false
any_id (j ∷ js) i = i == j || any_id js i
