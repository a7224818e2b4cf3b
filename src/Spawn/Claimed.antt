-- ===== src/Spawn/Claimed.antt =====
-- A spawned thread is joined once (runtime/xiom_runtime.c, 7156 to 7218).
use stdlib.Base.{
  ℕ, zero, suc, ◌+◌, ◌≤◌, ◌<◌, ◌≡◌, ◌≢◌, refl, sym, ap, ◌∙◌, subst, ◌⊎◌, inl, inr, Bool, true,
  false, Option, none, some, List, [], ◌∷◌, arith, set, dec_eq, Option-cases,
}
use stdlib.Base.Int.{ℤ, pos, negsuc}
use stdlib.Spawn.{Spawned, free_slot, Launch, claim, spawn_join, spawn_detach}
use stdlib.Spawn.Places.{
  handle_of, cleared, count, launched, release_lem, handle_of-cleared, handle_of_absent,
  cleared_gone, cleared_same, count-cleared, free_slot-Claimed,
}

-- A use of the table; the three spawns share the claim.
pub data Use : Type 0 where
  claims : Bool → ℕ → Use
  joins : ℤ → Use
  detaches : ℤ → Use

unfoldable pub use_of : Use → Spawned → Spawned
use_of (claims payload th) t = (claim payload th t).table
use_of (joins handle) t = (spawn_join handle t).1
use_of (detaches handle) t = (spawn_detach handle t).1

abbrev pub uses : List Use → Spawned → Spawned
uses [] t = t
uses (u ∷ us) t = uses us (use_of u t)

-- Uses that do not join or detach the thread of a handle.
abbrev pub Spares : ℕ → List Use → Type 0
Spares n [] = Unit {0}
Spares n (claims payload th ∷ us) = Spares n us
Spares n (joins handle ∷ us) = (handle ≢ pos n) × Spares n us
Spares n (detaches handle ∷ us) = (handle ≢ pos n) × Spares n us

-- No id is that of two active threads, the ids in use were given out, and the next one is not 0.
pub record IsTable (t : Spawned) : Type 0 where
  pub single : (g : ℕ) → count g t.entries ≤ 1
  pub fresh : (g : ℕ) → t.next_id ≤ g → count g t.entries ≡ 0
  pub positive : 0 < t.next_id

abbrev filled : ℕ → ℕ → Spawned → Spawned
filled th slot t = record {
  entries = set t.entries slot (launched t.next_id th);
  next_id = t.next_id + 1;
}

claim_free :
    (payload : Bool) (th slot : ℕ) (t : Spawned)
    → free_slot t.entries ≡ some slot
    → claim payload th t
      ≡ record { handle = t.next_id; detached = false; freed = false; table = filled th slot t }
unfolding claim
claim_free payload th slot t h = rw (claim, h) refl

claim_full :
    (payload : Bool) (th : ℕ) (t : Spawned)
    → free_slot t.entries ≡ none
    → claim payload th t ≡ record { handle = 0; detached = true; freed = payload; table = t }
unfolding claim
claim_full payload th t h = rw (claim, h) refl

filled-IsTable :
    (th slot : ℕ) (t : Spawned)
    → IsTable t
    → free_slot t.entries ≡ some slot
    → IsTable (filled th slot t)
filled-IsTable th slot t v at =
    let k = free_slot-Claimed t.next_id th slot t.entries at in
    record {
      single = λ g. ground (arith, k.counts g, v.single g, v.fresh g);
      fresh = λ g le. ground (arith, k.counts g, v.fresh g (omega arith));
      positive = omega arith;
    }

cleared-IsTable :
    (k : ℕ) (t : Spawned) → IsTable t → IsTable (record t { entries = cleared k t.entries })
cleared-IsTable k t v = record {
  single = λ g. omega (arith, count-cleared g k t.entries, v.single g);
  fresh = λ g le. omega (arith, count-cleared g k t.entries, v.fresh g le);
  positive = v.positive;
}

-- What a use comes to: a thread at a free place, a thread taken away, or nothing.
data Effect (u : Use) (t : Spawned) : Type 0 where
  fills :
      (th slot : ℕ) → free_slot t.entries ≡ some slot → use_of u t ≡ filled th slot t → Effect u t
  clears :
      (k : ℕ)
      → use_of u t ≡ record t { entries = cleared k t.entries }
      → ((n : ℕ) → Spares n (u ∷ []) → k ≢ n)
      → Effect u t
  keeps : use_of u t ≡ t → Effect u t

use-Effect : (u : Use) (t : Spawned) → Effect u t
unfolding use_of spawn_join spawn_detach
use-Effect (claims payload th) t = elim (Option-cases (free_slot t.entries)) [
  | inl full ↦ keeps (ap (λ (l : Launch). l.table) (claim_full payload th t full))
  | inr (slot, at) ↦
      fills th slot at (ap (λ (l : Launch). l.table) (claim_free payload th slot t at))
]
use-Effect (joins (negsuc k)) t = keeps refl
use-Effect (joins (pos zero)) t = keeps refl
use-Effect (joins (pos (suc k))) t =
    clears (suc k) (ap (λ (r : Option ℕ × Spawned). r.1) (release_lem (suc k) t))
      (λ n s e. s.0 (ap pos e))
use-Effect (detaches (negsuc k)) t = keeps refl
use-Effect (detaches (pos zero)) t = keeps refl
use-Effect (detaches (pos (suc k))) t =
    clears (suc k) (ap (λ (r : Option ℕ × Spawned). r.1) (release_lem (suc k) t))
      (λ n s e. s.0 (ap pos e))

-- What a use keeps of a handle that was given out.
record Step (n : ℕ) (u : Use) (t : Spawned) (w : Spawned) : Type 0 where
  table : IsTable w
  given : n < w.next_id
  spared : Spares n (u ∷ []) → handle_of n w.entries ≡ handle_of n t.entries
  gone : handle_of n t.entries ≡ none → handle_of n w.entries ≡ none

use-Step : (n : ℕ) (u : Use) (t : Spawned) → IsTable t → n < t.next_id → Step n u t (use_of u t)
use-Step n u t v lt = of_effect (use-Effect u t)
  where
    of_effect : Effect u t → Step n u t (use_of u t)
    of_effect (keeps e) =
        subst (Step n u t) (sym e)
          (record { table = v; given = lt; spared = λ s. refl; gone = λ h. h })
    of_effect (fills th slot at e) =
        let k = free_slot-Claimed t.next_id th slot t.entries at in
        let same = k.others n (λ e'. omega (arith, e', lt)) in
        subst (Step n u t) (sym e) (record {
          table = filled-IsTable th slot t v at;
          given = omega (arith, lt);
          spared = λ s. same;
          gone = λ h. same ∙ h;
        })
    of_effect (clears k e other) = subst (Step n u t) (sym e) (record {
      table = cleared-IsTable k t v;
      given = lt;
      spared = λ s. handle_of-cleared n k t.entries (other n s);
      gone = λ h. elim (dec_eq k n) [
        | yes same ↦
            ap (λ m. handle_of n (cleared m t.entries)) same
            ∙ ap (handle_of n) (cleared_same n t.entries h)
            ∙ h
        | no differs ↦ handle_of-cleared n k t.entries differs ∙ h
      ];
    })

-- What a run of uses keeps of it.
record Run (n : ℕ) (us : List Use) (t : Spawned) (w : Spawned) : Type 0 where
  table : IsTable w
  given : n < w.next_id
  spared : Spares n us → handle_of n w.entries ≡ handle_of n t.entries
  gone : handle_of n t.entries ≡ none → handle_of n w.entries ≡ none

first_spared :
    (n : ℕ) (u : Use) (us : List Use) → Spares n (u ∷ us) → Spares n (u ∷ []) × Spares n us
first_spared n (claims payload th) us s = (tt, s)
first_spared n (joins handle) us s = ((s.0, tt), s.1)
first_spared n (detaches handle) us s = ((s.0, tt), s.1)

uses-Run :
    (n : ℕ) (us : List Use) (t : Spawned) → IsTable t → n < t.next_id → Run n us t (uses us t)
uses-Run n [] t v lt = record { table = v; given = lt; spared = λ s. refl; gone = λ h. h }
uses-Run n (u ∷ us) t v lt =
    let one = use-Step n u t v lt in
    let rest = uses-Run n us (use_of u t) one.table one.given in
    record {
      table = rest.table;
      given = rest.given;
      spared = λ s. (let (s0, s1) = first_spared n u us s in rest.spared s1 ∙ one.spared s0);
      gone = λ h. rest.gone (one.gone h);
    }

join_lem :
    (n : ℕ) (t : Spawned)
    → 0 < n
    → spawn_join (pos n) t ≡ (handle_of n t.entries, record t { entries = cleared n t.entries })
unfolding spawn_join
join_lem zero t h = absurd (omega arith)
join_lem (suc n) t h = release_lem (suc n) t

-- What becomes of a new thread `th`: it was detached and the table kept, or it can be joined, once, after the uses `us`
-- and before the uses `vs`.
abbrev pub Refused : Spawned → Launch → Type 0
Refused t l = (l.handle ≡ 0) × (l.detached ≡ true) × (l.table ≡ t) × (free_slot t.entries ≡ none)

pub record Joined (th : ℕ) (us vs : List Use) (t : Spawned) (l : Launch) : Type 0 where
  pub fresh : l.handle ≡ t.next_id
  pub kept : l.detached ≡ false
  pub valid : IsTable l.table
  pub others : (g : ℕ) → g ≢ l.handle → handle_of g l.table.entries ≡ handle_of g t.entries
  pub first : (spawn_join (pos l.handle) (uses us l.table)).0 ≡ some th
  pub second :
      (spawn_join (pos l.handle) (uses vs (spawn_join (pos l.handle) (uses us l.table)).1)).0 ≡ none

-- A spawned thread is either refused, by a full table, detached and without a trace in the table, or it gets a new
-- positive handle, while every other handle keeps its thread. However the table is used then, so long as nothing joins or
-- detaches the handle, the first join of it finds the system's thread that was spawned; and however the table is used
-- after that, another join of it finds nothing.
pub claim-Joined :
    (payload : Bool) (th : ℕ) (us vs : List Use) (t : Spawned)
    → IsTable t
    → Spares t.next_id us
    → Refused t (claim payload th t) ⊎ Joined th us vs t (claim payload th t)
claim-Joined payload th us vs t v spares = elim (Option-cases (free_slot t.entries)) [
  | inl full ↦ inl (subst (Refused t) (sym (claim_full payload th t full)) (refl, refl, refl, full))
  | inr (slot, at) ↦
      inr (subst (Joined th us vs t) (sym (claim_free payload th slot t at)) (of_slot slot at))
]
  where
    of_slot :
        (slot : ℕ)
        → free_slot t.entries ≡ some slot
        → Joined th us vs t (record {
          handle = t.next_id;
          detached = false;
          freed = false;
          table = filled th slot t;
        })
    of_slot slot at =
        let n = t.next_id in
        let k = free_slot-Claimed n th slot t.entries at in
        let valid = filled-IsTable th slot t v at in
        let run = uses-Run n us (filled th slot t) valid (omega arith) in
        let own = k.own (handle_of_absent n t.entries (v.fresh n (omega arith))) in
        let w = uses us (filled th slot t) in
        let after : Spawned = record w { entries = cleared n w.entries } in
        let joined = join_lem n w v.positive in
        let last = uses-Run n vs after (cleared-IsTable n w run.table) run.given in
        let gone = last.gone (cleared_gone n w.entries (run.table.single n)) in
        record {
          fresh = refl;
          kept = refl;
          valid = valid;
          others = λ g ne. k.others g ne;
          first = ap (λ (r : Option ℕ × Spawned). r.0) joined ∙ run.spared spares ∙ own;
          second =
              ap (λ (r : Option ℕ × Spawned). (spawn_join (pos n) (uses vs r.1)).0) joined
              ∙ ap (λ (r : Option ℕ × Spawned). r.0) (join_lem n (uses vs after) v.positive)
              ∙ gone;
        }
