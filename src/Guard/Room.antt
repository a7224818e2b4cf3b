-- ===== src/Guard/Room.antt =====
-- Allocation in a new slab, and the choice of the slab (runtime/xiom_runtime.c, 551 to 560 and 618 to
-- 658).
use stdlib.Base.{
  ℕ, zero, suc, ◌+◌, ◌%◌, ◌^◌, ◌≤◌, ◌<◌, ◌≡◌, refl, sym, ap, ◌∙◌, subst, inl, inr, Bool, true,
  false, ◌&&◌, not, Option, none, some, List, [], ◌∷◌, ◌++◌, arith, ltb, leb, if◌then◌else◌, length,
  get_or, length-append, Bool-cases, Option-cases,
}
use stdlib.Guard.Memory.{fill}
use stdlib.Guard.Arena.{Slab, no_slab, Thread, Os, is_some, write_header, add_slab, ensure_slab}
use stdlib.Guard.Calls.{hand_out, current, bump, fresh_slab, place}
use stdlib.Guard.Place.{
  Disjoint, OsLaws, IsValid, get_or-last, Added, Same, AddOutcome, add_slab-AddOutcome,
  Added-IsValid, Same-IsValid,
}
use stdlib.Guard.Alloc.{Stamped, stamp-Stamped, Unused, Fresh-at, PlaceOutcome, bump-PlaceOutcome}

get_or-before :
    (xs : List Slab) (y : Slab) (j : ℕ)
    → j < length xs
    → get_or (xs ++ (y ∷ [])) j no_slab ≡ get_or xs j no_slab
get_or-before [] y j h = elim h [ ]
get_or-before (x ∷ xs) y zero h = refl
get_or-before (x ∷ xs) y (suc j) h = get_or-before xs y j (omega arith)

Added-current :
    (need : ℕ) (s u : Thread) (h : Added need s u)
    → current u.arena ≡ record { base = h.base; size = need }
Added-current need s u h = rw (h.cur_slab, h.slabs) (get_or-last s.arena.slabs _)

-- What is unused after a slab was added was unused before.
Unused-Added :
    (need base aligned : ℕ) (s u : Thread)
    → Added need s u
    → Unused base aligned u.arena
    → Unused base aligned s.arena
Unused-Added need base aligned s u h free j hj =
    let len =
      ap length h.slabs
      ∙ length-append s.arena.slabs (record { base = h.base; size = need } ∷ []) in
    let same : get_or u.arena.slabs j no_slab ≡ get_or s.arena.slabs j no_slab =
      ap (λ xs. get_or xs j no_slab) h.slabs ∙ get_or-before s.arena.slabs _ j hj in
    elim (free j (omega (arith, len))) [
      | inl apart ↦
          inl (subst (λ (y : Slab). Disjoint (record { base = base; size = aligned }) y) same apart)
      | inr here ↦
          let two : some (length s.arena.slabs) ≡ some j = sym h.cur_slab ∙ here.0 in
          let eq : length s.arena.slabs ≡ j = cc in absurd (omega (arith, eq))
    ]

-- A block that has a slab to itself.
alone-PlaceOutcome :
    (aligned off : ℕ) (s u : Thread)
    → IsValid s.arena
    → Added aligned s u
    → off ≡ 65536
    → 65536 < aligned
    → aligned < 2 ^ 63
    → PlaceOutcome aligned s (hand_out u (current u.arena).base aligned off)
alone-PlaceOutcome aligned off s u v h full large small =
    let b = (current u.arena).base in
    let w = Added-IsValid aligned s u (omega arith) v h in
    let basis : (current u.arena).base ≡ h.base =
      ap (λ (sl : Slab). sl.base) (Added-current aligned s u h) in
    let len =
      ap length h.slabs
      ∙ length-append s.arena.slabs (record { base = h.base; size = aligned } ∷ []) in
    let at : get_or u.arena.slabs (length s.arena.slabs) no_slab
        ≡ record { base = h.base; size = aligned } =
      ap (λ xs. get_or xs (length s.arena.slabs) no_slab) h.slabs ∙ get_or-last s.arena.slabs _ in
    (
      record {
        slabs = w.slabs;
        slab_size = w.slab_size;
        cursor = w.cursor;
        off_le = omega arith;
        off_aligned = omega arith;
      },
      inr record {
        base = (current u.arena).base;
        index = length s.arena.slabs;
        payload = refl;
        aligned_to = omega (arith, basis, h.is_aligned);
        within = record {
          index_lt = omega (arith, len);
          above = omega (arith, basis, ap (λ (sl : Slab). sl.base) at);
          below =
              omega (arith, basis, ap (λ (sl : Slab). sl.base) at, ap (λ (sl : Slab). sl.size) at);
        };
        unused = λ j hj. inl (
            subst
              (λ b. Disjoint (record { base = b; size = aligned }) (get_or s.arena.slabs j no_slab))
              (sym basis) (Fresh-at _ s.arena.slabs j h.is_fresh hj));
        guarded = λ c n some_bytes free. elim (free (length s.arena.slabs) (omega (arith, len))) [
          | inl (inl k) ↦ inl (omega (arith, basis, ap (λ (sl : Slab). sl.base) at))
          | inl (inr k) ↦
              inr (
                omega
                  (arith, basis, ap (λ (sl : Slab). sl.base) at, ap (λ (sl : Slab). sl.size) at))
          | inr (same, k, l) ↦ absurd (omega (arith, ap (λ (sl : Slab). sl.base) at))
        ];
        stamped =
            subst (λ m. Stamped b aligned m (write_header (fill u.memory b aligned) b aligned))
              h.memory (stamp-Stamped u.memory _ aligned (omega arith) small);
      },
    )

-- A block handed out from a slab just added was not handed out before.
later-PlaceOutcome :
    (need aligned : ℕ) (s u : Thread) (r : Option (ℕ × Thread))
    → Added need s u
    → PlaceOutcome aligned u r
    → PlaceOutcome aligned s r
later-PlaceOutcome need aligned s u none h o = o
later-PlaceOutcome need aligned s u (some (p, w)) h (v, inl (z, m)) = (v, inl (z, m ∙ h.memory))
later-PlaceOutcome need aligned s u (some (p, w)) h (v, inr k) = (
  v,
  inr record {
    base = k.base;
    index = k.index;
    payload = k.payload;
    aligned_to = k.aligned_to;
    within = k.within;
    unused = Unused-Added need k.base aligned s u h k.unused;
    guarded = k.guarded;
    stamped = subst (λ m. Stamped k.base aligned m w.memory) h.memory k.stamped;
  },
)

Same-PlaceOutcome :
    (aligned : ℕ) (s u : Thread) (r : Option (ℕ × Thread))
    → Same s u
    → PlaceOutcome aligned u r
    → PlaceOutcome aligned s r
Same-PlaceOutcome aligned s u none h o = o
Same-PlaceOutcome aligned s u (some (p, w)) h (v, inl (z, m)) = (v, inl (z, m ∙ h.memory))
Same-PlaceOutcome aligned s u (some (p, w)) h (v, inr k) = (
  v,
  inr record {
    base = k.base;
    index = k.index;
    payload = k.payload;
    aligned_to = k.aligned_to;
    within = k.within;
    unused = λ j. rw (sym h.slabs, sym h.cur_slab, sym h.cur_off) (k.unused j);
    guarded = k.guarded;
    stamped = subst (λ m. Stamped k.base aligned m w.memory) h.memory k.stamped;
  },
)

module _ (os : Os) (laws : OsLaws os) (aligned : ℕ) (big : 16 ≤ aligned) (al : aligned % 16 ≡ 0)
    (small : aligned + 65536 < 2 ^ 63) where
  -- The call behind the attempt to add a slab, whatever that came to.
  alone_after :
      (s : Thread) (off : ℕ) (r : Thread × Bool)
      → IsValid s.arena
      → off ≡ 65536
      → 65536 < aligned
      → AddOutcome aligned s r
      → PlaceOutcome aligned s
          (if not r.1 then some (0, r.0) else hand_out r.0 (current r.0.arena).base aligned off)
  alone_after s off (u, false) v full large h = (Same-IsValid s u v h, inl (refl, h.memory))
  alone_after s off (u, true) v full large h =
      alone-PlaceOutcome aligned off s u v h full large (omega arith)

  shared_after :
      (s : Thread) (r : Thread × Bool)
      → IsValid s.arena
      → aligned ≤ 65536
      → AddOutcome s.arena.slab_size s r
      → PlaceOutcome aligned s (if not r.1 then some (0, r.0) else bump aligned r.0)
  shared_after s (u, false) v fits h = (Same-IsValid s u v h, inl (refl, h.memory))
  shared_after s (u, true) v fits h = later-PlaceOutcome s.arena.slab_size aligned s u _ h (
      bump-PlaceOutcome aligned (length s.arena.slabs) u
        (Added-IsValid s.arena.slab_size s u (omega (arith, v.slab_size)) v h) h.cur_slab big al
        (omega (arith, h.cur_off)))

  fresh_slab-PlaceOutcome :
      (s : Thread) → IsValid s.arena → PlaceOutcome aligned s (fresh_slab os aligned s)
  unfolding fresh_slab
  fresh_slab-PlaceOutcome s v = elim (Bool-cases (ltb s.arena.slab_size aligned)) [
    | inl large ↦ rw large (
        alone_after s s.arena.slab_size (add_slab os aligned s) v v.slab_size
          (ground (arith, v.slab_size)) (add_slab-AddOutcome os laws aligned s))
    | inr fits ↦ rw fits (
        shared_after s (add_slab os s.arena.slab_size s) v (ground (arith, v.slab_size))
          (add_slab-AddOutcome os laws s.arena.slab_size s))
  ]

  -- The call once `xiom_guard_ensure_slab` has returned.
  pick : Thread → Option (ℕ × Thread)
  pick s =
      if not (is_some s.arena.cur_slab)
      then fresh_slab os aligned s
      else if leb (2 ^ 63) (s.arena.cur_off + aligned)
      then none
      else if ltb s.arena.slab_size (s.arena.cur_off + aligned)
      then fresh_slab os aligned s
      else bump aligned s

  pick-PlaceOutcome : (s : Thread) → IsValid s.arena → PlaceOutcome aligned s (pick s)
  unfolding pick
  pick-PlaceOutcome s v = elim (Option-cases s.arena.cur_slab) [
    | inl nothing ↦ rw (ap is_some nothing) (fresh_slab-PlaceOutcome s v)
    | inr (i, at) ↦ elim (Bool-cases (leb (2 ^ 63) (s.arena.cur_off + aligned))) [
      | inl over ↦ absurd (ground (arith, v.off_le))
      | inr under ↦ elim (Bool-cases (ltb s.arena.slab_size (s.arena.cur_off + aligned))) [
        | inl full ↦ rw (ap is_some at, under, full) (fresh_slab-PlaceOutcome s v)
        | inr room ↦
            rw (ap is_some at, under, room)
              (bump-PlaceOutcome aligned i s v at big al (ground (arith, v.slab_size)))
      ]
    ]
  ]

  ensured :
      (s : Thread) (r : Thread × Bool)
      → IsValid s.arena
      → AddOutcome s.arena.slab_size s r
      → PlaceOutcome aligned s (pick r.0)
  ensured s (u, false) v h =
      Same-PlaceOutcome aligned s u _ h (pick-PlaceOutcome u (Same-IsValid s u v h))
  ensured s (u, true) v h =
      later-PlaceOutcome s.arena.slab_size aligned s u _ h
        (pick-PlaceOutcome u (Added-IsValid s.arena.slab_size s u (omega (arith, v.slab_size)) v h))

  pub place-PlaceOutcome :
      (s : Thread) → IsValid s.arena → PlaceOutcome aligned s (place os aligned s)
  unfolding place ensure_slab pick
  place-PlaceOutcome s v =
      elim (Bool-cases (is_some s.arena.cur_slab && ltb s.arena.cur_off s.arena.slab_size)) [
        | inl room ↦ rw room (pick-PlaceOutcome s v)
        | inr none_left ↦ rw none_left (
            ensured s (add_slab os s.arena.slab_size s) v
              (add_slab-AddOutcome os laws s.arena.slab_size s))
      ]
