-- ===== src/Version.antt =====
-- Version management of the four kinds of resource: backend/internal/version/version.go.
-- Every operation is a procedure over the database, the version files and the `current` links.
-- What may fail outside the program (a query, a file operation, the caller's AfterCreate, the
-- commit) is a step of `Step`, and an operation takes the predicate of the steps that fail.
pub mod Tables
pub mod Outcome
pub mod Rows
pub mod Bounds
pub mod Invariant
pub mod Create
pub mod Delete
pub mod Read
pub mod Startup
pub mod Frame
pub mod Refused
mod Tests
use vpn_subscription_managem.Base.{
  ℕ, zero, suc, ◌+◌, ◌-◌, ◌*◌, ◌^◌, Bool, true, false, ◌||◌, not, List, [], ◌∷◌, ◌++◌, Option, none,
  some, Text, text_eq, codes, ◌==◌, ltb, leb, if◌then◌else◌, keep_if, map, length, take, Result, ok,
  err,
}
use vpn_subscription_managem.Base.Procs.{Proc, ◌>>=◌, ◌>>◌, pure, raise, gets, modify, transact}
use Tables.{
  OwnerType, Owner, Row, Db, State, owned, max_no, find_no, has_no, delete_no, touch, order_by_no,
  set_owner_current, write_file, set_link,
}

abbrev pub max_versions : ℕ
max_versions = 5

-- 50 << 20
abbrev pub max_content_size : ℕ
max_content_size = 50 * 2 ^ 20

pub data Step : Type 0 where
  select_max mkdir write_content insert_row last_id after_create : Step
  select_current update_current touch_version rebuild_link : Step
  select_total delete_row begin commit : Step
  remove_file : ℕ → Step

pub data VersionError : Type 0 where
  source_missing read_failed content_too_large not_found last_version current_version : VersionError
  no_owner_row : VersionError
  step_failed : Step → VersionError

abbrev pub Faults : Type 0
Faults = Step → Bool

abbrev pub Tx : Type 0 → Type 0
Tx A = Proc State VersionError A

pub attempt : Faults → Step → Tx Unit
attempt fails st = if fails st then raise (step_failed st) else pure tt

pub on_db : (Db → Db) → Tx Unit
on_db f = modify (λ s. record s { db = f s.db })

-- The rollback of a transaction covers the database only.
abbrev pub rollback : State → State → State
rollback s s' = record s' { db = s.db }

pub in_tx {ℓ} : {A : Type ℓ} → Faults → Proc State VersionError A → Proc State VersionError A
in_tx fails body s =
    if fails begin
    then (err (step_failed begin), s)
    else transact rollback (fails commit) (step_failed commit) body s

-- os.Remove, its error dropped
pub remove_quietly : Faults → Owner → ℕ → State → State
remove_quietly fails o n s =
    if fails (remove_file n) then s else record s { files = write_file o n none s.files }

pub remove_all_quietly : Faults → Owner → List ℕ → State → State
remove_all_quietly fails o [] s = s
remove_all_quietly fails o (n ∷ ns) s = remove_all_quietly fails o ns (remove_quietly fails o n s)

-- Content sources: BytesContent, TextContent, and ReaderContent with what the reader delivers
-- (`none`: reading fails), its limit and the uploaded name.
pub data Source : Type 0 where
  bytes_content : Text → Source
  text_content : Text → Text → Source
  reader_content : Option Text → ℕ → Text → Source

-- `io.ReadAll(io.LimitReader(r.R, r.Max+1))`, then the test of the length
pub read_limited : Option Text → ℕ → Result VersionError Text
read_limited none limit = err read_failed
read_limited (some body) limit =
    let content = take (limit + 1) body in
    if ltb limit (length content) then err content_too_large else ok content

pub content_of : Source → Result VersionError Text
unfolding read_limited
content_of (bytes_content b) = ok b
content_of (text_content t name) = ok t
content_of (reader_content body limit name) = read_limited body limit

pub source_file_name : Source → Text
source_file_name (bytes_content b) = []
source_file_name (text_content t name) = name
source_file_name (reader_content body limit name) = name

pub default_file_name : OwnerType → Text
default_file_name OwnerType.rule = codes "rule.conf"
default_file_name _ = codes "subscription.yaml"

pub file_name_for : Owner → Source → Text
unfolding source_file_name default_file_name
file_name_for o src =
    let name = source_file_name src in if text_eq name [] then default_file_name o.kind else name

-- `ownerCurrent`
pub owner_current : Faults → Owner → Tx ℕ
owner_current fails o s =
    if fails select_current
    then (err (step_failed select_current), s)
    else elim (s.db.current o) [ none ↦ (err no_owner_row, s) | some n ↦ (ok n, s) ]

-- `setCurrentLocked`: owner table, time stamp of the version, `current` link
pub set_current_locked : Faults → ℕ → Owner → ℕ → Tx Unit
unfolding attempt on_db
set_current_locked fails now o n = do
  attempt fails update_current
  on_db (λ d. record d { current = set_owner_current o n d.current })
  attempt fails touch_version
  on_db (λ d. record d { rows = touch o n now d.rows })
  attempt fails rebuild_link
  modify (λ s. record s { link = set_link o n s.link })

-- The deletes of `evictOldest`, one for each row that its query returned.
pub delete_each : Owner → List ℕ → List Row → List Row
delete_each o [] rows = rows
delete_each o (n ∷ ns) rows = delete_each o ns (delete_no o n rows)

-- The numbers that the query of `evictOldest` returns.
pub oldest : ℕ → ℕ → List Row → List ℕ
oldest excess current rows =
    map (λ r. r.no) (take excess (order_by_no (keep_if (λ r. not (r.no == current)) rows)))

pub evict_oldest : Faults → Owner → ℕ → Tx (List ℕ)
unfolding attempt on_db
evict_oldest fails o current = do
  attempt fails select_total
  rows ← gets (λ s. owned o s.db.rows)
  if leb (length rows) max_versions then pure [] else do
    attempt fails delete_row
    let gone = oldest (length rows - max_versions) current rows
    on_db (λ d. record d { rows = delete_each o gone d.rows })
    pure gone

pub record Version : Type 0 where
  pub id : ℕ
  pub no : ℕ
  pub file_name : Text
  pub is_current : Bool

pub record Created : Type 0 where
  pub version : Version
  pub evicted : List ℕ

-- on an error the version file just written is removed
pub cleaning {ℓ} :
    {A : Type ℓ} → Faults → Owner → ℕ → Proc State VersionError A → Proc State VersionError A
cleaning fails o n body s =
    let (r, s') = body s in
    elim r [ ok a ↦ (ok a, s') | err e ↦ (err e, remove_quietly fails o n s') ]

-- INSERT INTO versions; the id is the next AUTOINCREMENT value
pub insert_version : ℕ → Owner → ℕ → Text → Db → Db
insert_version now o n name d =
    let row : Row = record {
      id = d.next_id;
      owner = o;
      no = n;
      file_name = name;
      updated_at = now;
    } in
    record d { rows = d.rows ++ row ∷ []; next_id = d.next_id + 1 }

-- the first version is activated whatever `opts.Activate` says
pub activate_if : Faults → ℕ → Owner → ℕ → Bool → Tx Unit
activate_if fails now o n true = set_current_locked fails now o n
activate_if fails now o n false = pure tt

-- from the INSERT to the switch of the current version: (id, current before, activated)
pub record_version : Faults → ℕ → Owner → ℕ → Text → Bool → Tx (ℕ × ℕ × Bool)
unfolding attempt on_db
record_version fails now o n name activate = do
  attempt fails insert_row
  id ← gets (λ s. s.db.next_id)
  on_db (insert_version now o n name)
  attempt fails last_id
  attempt fails after_create
  current ← owner_current fails o
  activate_if fails now o n (current == 0 || activate)
  pure (id, current, current == 0 || activate)

-- the function that CreateVersion runs in its transaction
pub create_body : Faults → ℕ → Owner → Text → Text → Bool → Tx Created
unfolding attempt
create_body fails now o content name activate = do
  attempt fails select_max
  n ← gets (λ s. max_no (owned o s.db.rows) + 1)
  attempt fails mkdir
  attempt fails write_content
  modify (λ s. record s { files = write_file o n (some content) s.files })
  r ← cleaning fails o n (record_version fails now o n name activate)
  evicted ← evict_oldest fails o (if r.2 then n else r.1)
  pure (record {
    version = record { id = r.0; no = n; file_name = name; is_current = r.2 };
    evicted = evicted;
  })

-- files of evicted versions are removed once the transaction is committed
pub after_commit : Faults → Owner → Created → Tx Version
after_commit fails o c s = (ok c.version, remove_all_quietly fails o c.evicted s)

pub create_with : Faults → ℕ → Owner → Text → Text → Bool → Tx Version
create_with fails now o content name activate =
    if ltb max_content_size (length content)
    then raise content_too_large
    else (in_tx fails (create_body fails now o content name activate) >>= after_commit fails o)

pub create_version : Faults → ℕ → Owner → Option Source → Bool → Tx Version
create_version fails now o none activate = raise source_missing
create_version fails now o (some src) activate = elim (content_of src) [
  | err e ↦ raise e
  | ok content ↦ create_with fails now o content (file_name_for o src) activate
]

pub switch_version : Faults → ℕ → Owner → ℕ → Tx Unit
switch_version fails now o n = in_tx fails (do
  attempt fails select_total
  rows ← gets (λ s. owned o s.db.rows)
  if has_no n rows then set_current_locked fails now o n else raise not_found)

-- the row is there, and its DELETE
pub remove_row : Faults → Owner → ℕ → Bool → Tx Unit
unfolding attempt on_db
remove_row fails o n false = raise not_found
remove_row fails o n true = do
  attempt fails delete_row
  on_db (λ d. record d { rows = delete_no o n d.rows })

pub delete_body : Faults → Owner → ℕ → Tx Unit
unfolding attempt remove_row
delete_body fails o n = do
  attempt fails select_total
  rows ← gets (λ s. owned o s.db.rows)
  if leb (length rows) 1 then raise last_version else do
    current ← owner_current fails o
    if current == n then raise current_version else remove_row fails o n (has_no n rows)

pub delete_version : Faults → Owner → ℕ → Tx Unit
delete_version fails o n = do in_tx fails (delete_body fails o n); modify (remove_quietly fails o n)

-- `readCurrentWithName`: the row of the current version, then its file
pub read_file : State → Owner → Option Row → Result VersionError (Text × Text)
read_file s o none = err not_found
read_file s o (some r) = elim (s.files o r.no) [
  | none ↦ err read_failed
  | some content ↦ ok (content, r.file_name)
]

pub read_current : Owner → State → Result VersionError (Text × Text)
unfolding read_file
read_current o s = elim (s.db.current o) [
  | none ↦ err no_owner_row
  | some n ↦ if n == 0 then err not_found else read_file s o (find_no n (owned o s.db.rows))
]

-- `COALESCE(current_version, 0)`, where the owner table has the row
abbrev pub current_no : Db → Owner → ℕ
current_no d o = elim (d.current o) [ none ↦ 0 | some n ↦ n ]
