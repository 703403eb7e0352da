-- ===== src/Snapshot/Nullifiers/Pages.antt =====
-- What a page of events does to the set of nullifiers.
use mathlib.Core.Path.{subst}
use hinkal_go.Prelude.{
  ℕ, ◌+◌, ◌≡◌, inl, inr, refl, sym, ap, ◌∙◌, arith, Bool, true, false, ◌||◌, Option, none, some,
  List, [], ◌∷◌, Text, text_eq, text_beq_iff, length, ◌==◌, if◌then◌else◌, ok, Bool-cases, eq_refl,
  ok-injective,
}
use hinkal_go.Prelude.Dict
use hinkal_go.Prelude.Dict.{lookup, insert, lookup-insert}
use hinkal_go.Snapshot.{BlockchainEvent, mapped, accept_mapped, count_up, accept_page}
use hinkal_go.Snapshot.Nullifiers.Contents.{contains-insert, insert-length}
use hinkal_go.Snapshot.Replay.{Remembers}
use hinkal_go.Snapshot.Nullifiers.{Nullifiers, accept_nullifier}

-- A new nullifier is inserted, and a known one leaves the set.
abbrev pub after_nullifier : Text → Nullifiers → Nullifiers × Bool
after_nullifier n ns = if Dict.contains n ns then (ns, false) else (insert n tt ns, true)

accept_nullifier-after :
    (n : Text) (b : Bool) (ns : Nullifiers) → accept_nullifier n b ns ≡ ok (after_nullifier n ns)
unfolding accept_nullifier
accept_nullifier-after n b ns = ground arith

after_nullifier-contains :
    (n k : Text) (ns : Nullifiers)
    → Dict.contains k (after_nullifier n ns).0 ≡ ((n == k) || Dict.contains k ns)
after_nullifier-contains n k ns = elim (Bool-cases (Dict.contains n ns)) [
  | inl present ↦ rw present (elim (Bool-cases (n == k)) [
    | inl same ↦ let e = (text_beq_iff n k).0 same in rw (same, ← e, present) refl
    | inr other ↦ rw other refl
  ])
  | inr absent ↦ rw absent (contains-insert n k ns)
]

after_nullifier-length :
    (n : Text) (ns : Nullifiers)
    → length (after_nullifier n ns).0 ≡ count_up (after_nullifier n ns).1 (length ns)
after_nullifier-length n ns = elim (Bool-cases (Dict.contains n ns)) [
  | inl present ↦ rw present refl
  | inr absent ↦ rw absent (insert-length n ns absent)
]

pub accepted-contains :
    (n k : Text) (b : Bool) (ns : Nullifiers) (r : Nullifiers × Bool)
    → accept_nullifier n b ns ≡ ok r
    → Dict.contains k r.0 ≡ ((n == k) || Dict.contains k ns)
accepted-contains n k b ns r e =
    let same = ok-injective (sym (accept_nullifier-after n b ns) ∙ e) in
    subst (λ (q : Nullifiers × Bool). Dict.contains k q.0 ≡ ((n == k) || Dict.contains k ns)) same
      (after_nullifier-contains n k ns)

pub refused-nullifier :
    (n : Text) (b : Bool) (ns : Nullifiers)
    → Dict.contains n ns ≡ true
    → accept_nullifier n b ns ≡ ok (ns, false)
unfolding accept_nullifier
refused-nullifier n b ns seen = rw seen refl

pub kept-nullifier :
    (n k : Text) (b : Bool) (ns : Nullifiers) (r : Nullifiers × Bool)
    → Dict.contains k ns ≡ true
    → accept_nullifier n b ns ≡ ok r
    → Dict.contains k r.0 ≡ true
kept-nullifier n k b ns r seen e = accepted-contains n k b ns r e ∙ ground (arith, seen)

-- The nullifiers that are seen stay seen, so any page can be read again.
abbrev pub nullifier_memory : Remembers accept_nullifier
nullifier_memory = record {
  Seen = λ n ns. Dict.contains n ns ≡ true;
  Compatible = λ n k. Unit;
  accepted = λ n b ns r e.
      accepted-contains n n b ns r e ∙ ap (λ (q : Bool). q || Dict.contains n ns) (eq_refl n);
  refused = refused-nullifier;
  kept = λ n k b ns r c seen e. kept-nullifier k n b ns r seen e;
}

module _ {Args : Type 0} (map_event : BlockchainEvent Args → Option Text) (event_name : Text) where
  abbrev pub is_nullified_by : Option Text → Text → Bool
  is_nullified_by none k = false
  is_nullified_by (some n) k = n == k

  -- An event of the page nullifies.
  abbrev pub is_nullified : List (BlockchainEvent Args) → Text → Bool
  is_nullified [] k = false
  is_nullified (ev ∷ events) k =
      is_nullified_by (mapped accept_nullifier map_event event_name ev) k || is_nullified events k

  abbrev after_mapped : Option Text → Nullifiers → Nullifiers × Bool
  after_mapped none ns = (ns, false)
  after_mapped (some n) ns = after_nullifier n ns

  accept_mapped-after :
      (o : Option Text) (b : Bool) (ns : Nullifiers)
      → accept_mapped accept_nullifier map_event event_name o b ns ≡ ok (after_mapped o ns)
  unfolding accept_mapped
  accept_mapped-after none b ns = refl
  accept_mapped-after (some n) b ns = accept_nullifier-after n b ns

  after_mapped-contains :
      (o : Option Text) (ns : Nullifiers) (k : Text)
      → Dict.contains k (after_mapped o ns).0 ≡ (is_nullified_by o k || Dict.contains k ns)
  after_mapped-contains none ns k = refl
  after_mapped-contains (some n) ns k = after_nullifier-contains n k ns

  after_mapped-length :
      (o : Option Text) (ns : Nullifiers)
      → length (after_mapped o ns).0 ≡ count_up (after_mapped o ns).1 (length ns)
  after_mapped-length none ns = refl
  after_mapped-length (some n) ns = after_nullifier-length n ns

  -- A page of events never panics. The set then holds what it held and what the page nullifies,
  -- whatever the order of the events, and the count that is returned is the number of the new ones.
  pub accept_page-nullifies :
      (blocked : Text → Bool) (events : List (BlockchainEvent Args)) (ns : Nullifiers)
      → (ns' : Nullifiers) × (n : ℕ) × (accept_page accept_nullifier map_event event_name blocked
            events ns
          ≡ ok (ns', n))
        × (length ns' ≡ n + length ns)
        × ((k : Text) → Dict.contains k ns' ≡ (is_nullified events k || Dict.contains k ns))
  unfolding accept_page
  accept_page-nullifies blocked [] ns = (ns, 0, refl, omega arith, λ k. refl)
  accept_page-nullifies blocked (ev ∷ events) ns =
      let o = mapped accept_nullifier map_event event_name ev in
      let (s, took) = after_mapped o ns in
      let (ns', n, run, grown, holds) = accept_page-nullifies blocked events s in
      let long = after_mapped-length o ns in
      (
        ns',
        count_up took n,
        rw (accept_mapped-after o (blocked ev.transaction_hash) ns, run) refl,
        ground (arith, grown, long),
        λ k.
            holds k
            ∙ ap (λ (q : Bool). is_nullified events k || q) (after_mapped-contains o ns k)
            ∙ ground arith,
      )
