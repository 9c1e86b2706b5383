-- ===== src/Store/Reachable.antt =====
-- The histories of a store: any sequence of the calls Add and Snapshot, at any times.
use async_trace_doctor.Common.{
  ℕ, ◌≤◌, ◌<◌, ◌≡◌, refl, ap, ◌∙◌, subst, sym, Bool, true, false, Option, none, some, List, length,
  nat_eq, if◌then◌else◌, arith,
}
use async_trace_doctor.Model.{Time, Span}
use async_trace_doctor.Store.Defs.{
  Store, AddResult, zero_metrics, new_store, evict, add, read_snapshot, take_snapshot, snapshot,
}
use async_trace_doctor.Store.Invariant.{IsSound, new_store-IsSound, evict-IsSound}
use async_trace_doctor.Store.Admission.{Limits, limits, spans-evict}
use async_trace_doctor.Store.Accounting.{add-receive}
use async_trace_doctor.Store.Metrics.{Agrees, new_store-Agrees, evict-Agrees, add-Agrees}

pub data Step (s s' : Store) : Type 0 where
  adds :
      (now : Time) (batch : List Span) (r : AddResult) → add now batch s ≡ some (s', r) → Step s s'
  snaps : (now : Time) → s' ≡ (snapshot now s).0 → Step s s'

pub data Reach (s : Store) : Store → Type 0 where
  here : Reach s s
  next : {t u : Store} → Reach s t → Step t u → Reach s u

-- What every reachable store satisfies, for the limits of the store that it started as.
pub record IsOperational (l : Limits) (s : Store) : Type 0 where
  pub sound : IsSound s
  pub agrees : Agrees s
  pub same_limits : limits s ≡ l

read_snapshot-IsOperational :
    (o : Option (List Span)) (l : Limits) {s : Store}
    → IsOperational l s
    → IsOperational l (read_snapshot o s).0
unfolding read_snapshot take_snapshot
read_snapshot-IsOperational o l {s} h = go o
  where
    taken : IsOperational l (take_snapshot s).0
    taken = record {
      sound = record {
        counted = h.sound.counted;
        weighed = h.sound.weighed;
        fits = h.sound.fits;
        unique = h.sound.unique;
        indexed = h.sound.indexed;
      };
      agrees = record {
        rejections = h.agrees.rejections;
        duplicates = h.agrees.duplicates;
        conflicts = h.agrees.conflicts;
        conflict_label = h.agrees.conflict_label;
        evictions = h.agrees.evictions;
      };
      same_limits = h.same_limits;
    }

    either : (b : Bool) (c : List Span) → IsOperational l (if b then (s, c) else take_snapshot s).0
    either true c = h
    either false c = taken

    go : (o : Option (List Span)) → IsOperational l (read_snapshot o s).0
    go none = taken
    go (some c) = either (nat_eq s.generation s.last_snapshot_generation) c

Step-IsOperational :
    {l : Limits} {s s' : Store} → Step s s' → IsOperational l s → IsOperational l s'
Step-IsOperational {s = s} (adds now batch r e) h =
    let (sound, _, lim) = add-receive now batch s h.sound e in
    record {
      sound = sound;
      agrees = (add-Agrees now batch s h.agrees e).0;
      same_limits = lim ∙ h.same_limits;
    }
Step-IsOperational {l} {s} (snaps now e) h = subst (IsOperational l) (sym e) (
    unfold snapshot in
    read_snapshot-IsOperational (evict now s).cached_snapshot l (record {
      sound = evict-IsSound now h.sound;
      agrees = evict-Agrees now h.agrees;
      same_limits = (spans-evict now s).1 ∙ h.same_limits;
    }))

Reach-IsOperational : {l : Limits} {s t : Store} → IsOperational l s → Reach s t → IsOperational l t
Reach-IsOperational h here = h
Reach-IsOperational h (next r st) = Step-IsOperational st (Reach-IsOperational h r)

-- Whatever batches arrive and whenever snapshots are taken, the store never holds more spans or more
-- estimated bytes than its limits allow, no two of its spans have one identity, its index answers
-- every identity with the place of its span, and its counters agree with its statistics.
pub Reach-new_store :
    (max ttl max_bytes : ℕ) {t : Store}
    → Reach (new_store max ttl zero_metrics max_bytes) t
    → (length t.spans ≤ max) × (0 < max_bytes → t.current_bytes ≤ max_bytes) × IsSound t × Agrees t
Reach-new_store max ttl max_bytes {t} r =
    let h =
      Reach-IsOperational {l = record { max = max; max_bytes = max_bytes; ttl = ttl }}
        (record {
          sound = new_store-IsSound max ttl zero_metrics max_bytes;
          agrees = new_store-Agrees max ttl max_bytes;
          same_limits = unfold new_store in refl;
        })
        r in
    let m : t.max ≡ max = ap (λ (l : Limits). l.max) h.same_limits in
    let b : t.max_bytes ≡ max_bytes = ap (λ (l : Limits). l.max_bytes) h.same_limits in
    (
      omega (arith, h.sound.counted),
      λ p. omega (arith, h.sound.fits (omega arith)),
      h.sound,
      h.agrees,
    )
