-- ===== src/Version/Tables.antt =====
-- The tables and files behind backend/internal/version/version.go: the rows of `versions`, the
-- column `current_version` of the four owner tables, the version files and the `current` links.
-- The path {ownerType}/{ownerID}/v{n} of a version file is modelled by its owner and number.
use Prim.Native.Nat.{max}
use vpn_subscription_managem.Base.{
  ℕ, Bool, true, false, ◌&&◌, not, List, [], ◌∷◌, Option, none, some, Text, ◌==◌, if◌then◌else◌,
  keep_if, map, leb,
}

pub data OwnerType : Type 0 where
  subscription rule custom share : OwnerType

pub record Owner : Type 0 where
  pub kind : OwnerType
  pub id : ℕ

unfoldable pub same_kind : OwnerType → OwnerType → Bool
same_kind subscription subscription = true
same_kind rule rule = true
same_kind custom custom = true
same_kind share share = true
same_kind _ _ = false

unfoldable pub same_owner : Owner → Owner → Bool
same_owner o p = same_kind o.kind p.kind && o.id == p.id

pub record Row : Type 0 where
  pub id : ℕ
  pub owner : Owner
  pub no : ℕ
  pub file_name : Text
  pub updated_at : ℕ

pub record Db : Type 0 where
  pub rows : List Row
  -- `none` where the owner table has no row for the resource; NULL is 0
  pub current : Owner → Option ℕ
  pub next_id : ℕ

pub record State : Type 0 where
  pub db : Db
  pub files : Owner → ℕ → Option Text
  pub link : Owner → Option ℕ

-- WHERE owner_type = ? AND owner_id = ?
unfoldable pub owned : Owner → List Row → List Row
owned o rows = keep_if (λ r. same_owner r.owner o) rows

-- COALESCE(MAX(version_no), 0)
unfoldable pub max_no : List Row → ℕ
max_no [] = 0
max_no (r ∷ rows) = max r.no (max_no rows)

unfoldable pub find_no : ℕ → List Row → Option Row
find_no n [] = none
find_no n (r ∷ rows) = if r.no == n then some r else find_no n rows

abbrev pub has_no : ℕ → List Row → Bool
has_no n rows = elim (find_no n rows) [ none ↦ false | some r ↦ true ]

-- DELETE ... WHERE owner_type = ? AND owner_id = ? AND version_no = ?
unfoldable pub delete_no : Owner → ℕ → List Row → List Row
delete_no o n rows = keep_if (λ r. not (same_owner r.owner o && r.no == n)) rows

-- UPDATE versions SET updated_at = ? WHERE ...
unfoldable pub touch_row : Owner → ℕ → ℕ → Row → Row
touch_row o n now r = if same_owner r.owner o && r.no == n then record r { updated_at = now } else r

unfoldable pub touch : Owner → ℕ → ℕ → List Row → List Row
touch o n now rows = map (touch_row o n now) rows

unfoldable pub insert_by_no : Row → List Row → List Row
insert_by_no r [] = r ∷ []
insert_by_no r (q ∷ rows) = if leb r.no q.no then r ∷ q ∷ rows else q ∷ insert_by_no r rows

-- ORDER BY version_no ASC
unfoldable pub order_by_no : List Row → List Row
order_by_no [] = []
order_by_no (r ∷ rows) = insert_by_no r (order_by_no rows)

-- UPDATE owner table SET current_version = ? WHERE id = ?: nothing where the row is missing
unfoldable pub set_owner_current : Owner → ℕ → (Owner → Option ℕ) → Owner → Option ℕ
set_owner_current o n current p =
    if same_owner p o then elim (current p) [ none ↦ none | some old ↦ some n ] else current p

unfoldable pub write_file :
    Owner → ℕ → Option Text → (Owner → ℕ → Option Text) → Owner → ℕ → Option Text
write_file o n content files p m = if same_owner p o && m == n then content else files p m

unfoldable pub set_link : Owner → ℕ → (Owner → Option ℕ) → Owner → Option ℕ
set_link o n link p = if same_owner p o then some n else link p
