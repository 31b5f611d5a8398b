-- ===== src/Pool/Sources.antt =====
-- Looking up the row of a source (pool/sync.go: applyParseResultTx, ActivatePending,
-- DiscardPending).
use vpn_subscription_managem.Base.{
  ℕ, ◌≡◌, refl, ap, ◌∙◌, false, List, [], ◌∷◌, ◌==◌, Option, some, some-injective, if◌then◌else◌,
  ==_iff, arith, Bool-cases, inl, inr,
}
use vpn_subscription_managem.Pool.Pipeline.{ParsedRule}
use vpn_subscription_managem.Pool.Snapshot.{
  SourceRow, SnapshotDb, find_source, update_source, ensure_canonical, add_origin, add_items,
}
use vpn_subscription_managem.Pool.Review.{pending_of}

pub add_items-kept :
    (pool source snapshot : ℕ) (items : List ParsedRule) (d : SnapshotDb)
    → ((add_items pool source snapshot items d).sources ≡ d.sources)
      × ((add_items pool source snapshot items d).snapshots ≡ d.snapshots)
unfolding add_items ensure_canonical
add_items-kept pool source snapshot [] d = (refl, refl)
add_items-kept pool source snapshot (i ∷ is) d =
    let rest =
      add_items-kept pool source snapshot is
        (add_origin pool source snapshot i (ensure_canonical pool i.rule d)) in
    ground (arith, rest)

first_row :
    (source : ℕ) (s : SourceRow) (rest : Option SourceRow)
    → s.id ≡ source
    → (if s.id == source then some s else rest) ≡ some s
first_row source s rest e = let test = (==_iff s.id source).1 e in rw test refl

pub find_source-update_source :
    (source : ℕ) (f : SourceRow → SourceRow) (ss : List SourceRow) (s : SourceRow)
    → ((t : SourceRow) → (f t).id ≡ t.id)
    → find_source source ss ≡ some s
    → find_source source (update_source source f ss) ≡ some (f s)
unfolding find_source update_source
find_source-update_source source f [] s h e = ground (arith, e)
find_source-update_source source f (t ∷ ss) s h e = elim (Bool-cases (t.id == source)) [
  | inl m ↦
      let same = some-injective (rw m at e) in
      rw m (
        first_row source (f t) _ (h t ∙ (==_iff t.id source).0 m)
        ∙ ap (λ (x : SourceRow). some (f x)) same)
  | inr m ↦ rw (m, m) (find_source-update_source source f ss s h (rw m at e))
]

pub find_source-other :
    (source other : ℕ) (f : SourceRow → SourceRow) (ss : List SourceRow)
    → ((t : SourceRow) → (f t).id ≡ t.id)
    → (source == other) ≡ false
    → find_source other (update_source source f ss) ≡ find_source other ss
unfolding find_source update_source
find_source-other source other f [] h n = refl
find_source-other source other f (t ∷ ss) h n =
    ground (arith, h t, find_source-other source other f ss h n)

pub pending_of-find_source :
    (pool source : ℕ) (ss : List SourceRow) (s : SourceRow)
    → s.pool_id ≡ pool
    → find_source source ss ≡ some s
    → pending_of pool source ss ≡ s.pending
unfolding find_source pending_of
pending_of-find_source pool source [] s p e = ground (arith, e)
pending_of-find_source pool source (t ∷ ss) s p e = elim (Bool-cases (t.id == source)) [
  | inl m ↦ let same = some-injective (rw m at e) in rw (same, p) (ground (arith, rw same at m))
  | inr m ↦ ground (arith, m, pending_of-find_source pool source ss s p (rw m at e))
]
