-- ===== src/Version/Tests.antt =====
-- A resource's life, run step by step, and the theorems of this component at it (version.go).
use vpn_subscription_managem.Base.{
  ◌≡◌, ◌↔◌, refl, Bool, true, false, [], ◌∷◌, Option, none, some, codes, text_eq, ok, err, Result,
  arith, keep_if,
}
use vpn_subscription_managem.Base.Procs.{transact}
use vpn_subscription_managem.Version.{
  Faults, State, Source, text_content, Version, VersionError, rebuild_link, step_failed,
  last_version, current_version, not_found, create_version, delete_version, switch_version,
  read_current, create_with, create_body, in_tx, after_commit, content_of, file_name_for,
  record_version, evict_oldest, cleaning, oldest, delete_each, owner_current, set_current_locked,
  activate_if, insert_version, remove_quietly, remove_all_quietly, source_file_name,
  default_file_name, read_limited, attempt, on_db, delete_body, remove_row,
}
use vpn_subscription_managem.Version.Tables.{
  subscription, Owner, owned, max_no, find_no, delete_no, touch, touch_row, order_by_no,
  insert_by_no, same_owner, same_kind, set_owner_current, write_file, set_link,
}
use vpn_subscription_managem.Version.Rows.{mem_no, max_of, without}
use vpn_subscription_managem.Version.Bounds.{numbers}
use vpn_subscription_managem.Version.Invariant.{IsValid, IsCreated}
use vpn_subscription_managem.Version.Create.{create_version-IsCreated}
use vpn_subscription_managem.Version.Delete.{
  IsDeletable, IsRemoved, delete_version-IsValid, switch_version-IsValid, create-delete_reuses,
  delete_version_complete,
}
use vpn_subscription_managem.Version.Read.{read_current-create_version}
use vpn_subscription_managem.Version.Frame.{SameOwner, operations-SameOwner}
use vpn_subscription_managem.Version.Refused.{read_current-create_version_error}

abbrev fine : Faults
fine st = false

-- rebuilding the link fails
abbrev no_link : Faults
no_link rebuild_link = true
no_link st = false

abbrev plan : Owner
plan = record { kind = subscription; id = 7 }

abbrev other_plan : Owner
other_plan = record { kind = subscription; id = 8 }

-- one resource without versions
abbrev fresh : State
fresh = record {
  db = record { rows = []; current = λ o. some 0; next_id = 1 };
  files = λ o n. none;
  link = λ o. none;
}

abbrev upload : Option Source
upload = some (text_content (codes "proxies: []") (codes "team.yaml"))

-- every function that a run computes with
create : Faults → State → Result VersionError Version × State
unfolding create_version content_of create_with file_name_for source_file_name default_file_name
    text_eq read_limited in_tx transact create_body attempt on_db cleaning record_version
    owner_current insert_version activate_if set_current_locked evict_oldest oldest delete_each
    remove_quietly remove_all_quietly after_commit owned keep_if max_no find_no delete_no touch
    touch_row order_by_no insert_by_no same_owner same_kind set_owner_current write_file set_link
create fails s = create_version fails 0 plan upload false s

step : State → State
unfolding create
step s = (create fine s).1

-- after six creations: the first is current, and the second was given up
six : State
unfolding step
six = step (step (step (step (step (step fresh)))))

fresh-IsValid : IsValid plan fresh.db
unfolding owned keep_if
fresh-IsValid = record { ascending = tt; bounded = omega arith; active = refl }

six_numbers : numbers plan six.db ≡ 1 ∷ 3 ∷ 4 ∷ 5 ∷ 6 ∷ []
unfolding six
six_numbers = refl

six-IsValid : IsValid plan six.db
unfolding six mem_no
six-IsValid = record { ascending = omega arith; bounded = omega arith; active = refl }

six_has_five : mem_no 5 (numbers plan six.db) ≡ true
unfolding six mem_no
six_has_five = refl

six_max : max_of (numbers plan six.db) ≡ 6
unfolding six max_of
six_max = refl

abbrev seventh : Bool → Version
seventh current = record { id = 7; no = 7; file_name = codes "team.yaml"; is_current = current }

creates : (create_version fine 0 plan upload true six).0 ≡ ok (seventh true)
unfolding six
creates = refl

create_version-IsCreated_example :
    IsCreated plan true 7 six.db (create_version fine 0 plan upload true six).1.db × (true ≡ true)
unfolding six
create_version-IsCreated_example =
    create_version-IsCreated fine 0 plan six upload true {v = seventh true} six-IsValid creates

loses_link : (create_version no_link 0 plan upload true six).0 ≡ err (step_failed rebuild_link)
unfolding six
loses_link = refl

read_current-create_version_error_example :
    ((create_version no_link 0 plan upload true six).1.db ≡ six.db)
    × (read_current plan (create_version no_link 0 plan upload true six).1 ≡ read_current plan six)
read_current-create_version_error_example =
    read_current-create_version_error no_link 0 plan six upload true loses_link

read_current-create_version_example :
    read_current plan (create_version fine 0 plan upload true six).1
    ≡ ok (
      codes "proxies: []",
      file_name_for plan (text_content (codes "proxies: []") (codes "team.yaml")),
    )
read_current-create_version_example =
    read_current-create_version fine 0 plan six
      (text_content (codes "proxies: []") (codes "team.yaml")) (codes "proxies: []") true
      six-IsValid (unfold content_of in refl) creates refl

different : same_owner other_plan plan ≡ false
unfolding same_owner same_kind
different = refl

operations-SameOwner_example :
    SameOwner other_plan six (create_version fine 0 plan upload true six).1
    × SameOwner other_plan six (switch_version fine 0 plan 4 six).1
    × SameOwner other_plan six (delete_version fine plan 4 six).1
operations-SameOwner_example =
    operations-SameOwner plan other_plan different fine 0 4 upload true six

deletes : (delete_version fine plan 6 six).0 ≡ ok tt
unfolding six delete_version delete_body remove_row
deletes = refl

delete_version-IsValid_example :
    let s' = (delete_version fine plan 6 six).1 in
    IsDeletable fine plan 6 six
    × IsRemoved fine plan 6 six other_plan s'
    × IsValid plan s'.db
    × (numbers plan s'.db ≡ without 6 (numbers plan six.db))
    × (s'.db.current ≡ six.db.current)
delete_version-IsValid_example =
    delete_version-IsValid fine plan 6 six {p = other_plan} different six-IsValid deletes

delete_version_complete_example :
    ((delete_version fine plan 6 six).0 ≡ ok tt) ↔ IsDeletable fine plan 6 six
delete_version_complete_example = delete_version_complete fine plan 6 six six-IsValid (λ st. refl)

-- The first version is current, and a version that does not exist is refused too.
refusals :
    ((delete_version fine plan 1 six).0 ≡ err current_version)
    × ((delete_version fine plan 2 six).0 ≡ err not_found)
    × ((delete_version fine plan 1 (step fresh)).0 ≡ err last_version)
unfolding six delete_version delete_body remove_row
refusals = (refl, refl, refl)

switches : (switch_version fine 5 plan 4 six).0 ≡ ok tt
unfolding six switch_version
switches = refl

switch_version-IsValid_example :
    let d = (switch_version fine 5 plan 4 six).1.db in
    (mem_no 4 (numbers plan six.db) ≡ true)
    × IsValid plan d
    × (d.current plan ≡ some 4)
    × (numbers plan d ≡ numbers plan six.db)
switch_version-IsValid_example =
    switch_version-IsValid fine plan 4 six 5 six-IsValid (λ e. omega arith) switches

abbrev again : Version
again = record { id = 7; no = 6; file_name = codes "team.yaml"; is_current = false }

creates_again :
    (create_version fine 0 plan upload false (delete_version fine plan 6 six).1).0 ≡ ok again
unfolding six delete_version delete_body remove_row
creates_again = refl

create-delete_reuses_example : again.no ≡ 6
create-delete_reuses_example =
    create-delete_reuses fine 0 plan 5 six upload false {v = again} six-IsValid deletes six_has_five
      six_max creates_again

-- the state with the link of the resource on a version that was given up
abbrev broken : State
broken = record six { link = λ o. some 2 }
