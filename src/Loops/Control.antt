-- ===== src/Loops/Control.antt =====
-- The registration of descriptors as a map from descriptors to interests (runtime/xiom_runtime.c, 9582 to 9620).
use stdlib.Base.{
  ℕ, zero, suc, ◌≤◌, ◌≡◌, refl, ap, ◌∙◌, inl, inr, Bool, true, false, ◌&&◌, Option, none, some,
  List, [], ◌∷◌, arith, leb, ◌==◌, if◌then◌else◌, length, length-append, Bool-cases, Option-cases,
}
use stdlib.Base.Int.{ℤ, pos, negsuc}
use stdlib.Base.Keyed.{
  find, Distinct, find-swap_out, swap_out-Distinct, append-Distinct, find-append, length-swap_out,
}
use stdlib.Loops.{Entry, Loop, max_fds, fd_of, is_some, set_interest, control}

-- No descriptor twice, and no more than there are places for.
pub record IsLoop (l : Loop) : Type 0 where
  pub distinct : Distinct fd_of l.entries
  pub fits : length l.entries ≤ max_fds

-- The interests of a descriptor.
abbrev pub interest : Loop → ℕ → Option Entry
interest l g = find fd_of g l.entries

-- What each operation makes of the interests of its descriptor.
abbrev pub wanted : ℤ → ℕ → Bool → Bool → Option Entry
wanted (pos zero) fd read write = some (record { fd = fd; want_read = read; want_write = write })
wanted (pos (suc zero)) fd read write =
    some (record { fd = fd; want_read = read; want_write = write })
wanted (pos (suc (suc n))) fd read write = none
wanted (negsuc n) fd read write = none

-- Whether an operation succeeds: an addition where the descriptor is new and there is a place, a change and a removal
-- where it is there.
abbrev pub accepts : ℤ → ℕ → Loop → Bool
accepts (pos zero) fd l =
    if leb max_fds (length l.entries)
    then false
    else if is_some (interest l fd)
    then false
    else true
accepts (pos (suc zero)) fd l = is_some (interest l fd)
accepts (pos (suc (suc zero))) fd l = is_some (interest l fd)
accepts (pos (suc (suc (suc n)))) fd l = false
accepts (negsuc n) fd l = false

-- An operation that succeeds gives 0, and changes the interests of its descriptor alone; one that does not gives -1 and
-- changes nothing.
pub record Controlled (op : ℤ) (fd : ℕ) (read write : Bool) (l : Loop) (r : ℤ × Loop) : Type 0 where
  pub shape : IsLoop r.1
  pub done :
      accepts op fd l ≡ true
      → (r.0 ≡ pos 0)
        × ((g : ℕ) → interest r.1 g ≡ (if g == fd then wanted op fd read write else interest l g))
  pub refused : accepts op fd l ≡ false → (r.0 ≡ negsuc 0) × (r.1 ≡ l)

and_true :
    {A : Type 0} (x y : A) (b c : Bool)
    → c ≡ true
    → (if b && c then x else y) ≡ (if b then x else y)
and_true x y true c h = rw h refl
and_true x y false c h = refl

module _ (fd : ℕ) (read write : Bool) where
  abbrev entry : Entry
  entry = record { fd = fd; want_read = read; want_write = write }

  length-set_interest : (es : List Entry) → length (set_interest fd read write es) ≡ length es
  unfolding set_interest
  length-set_interest [] = refl
  length-set_interest (e ∷ es) = elim (Bool-cases (e.fd == fd)) [
    | inl here ↦ rw here refl
    | inr past ↦ rw past (ap suc (length-set_interest es))
  ]

  find-set_interest :
      (g : ℕ) (es : List Entry)
      → find fd_of g (set_interest fd read write es)
        ≡ (if (g == fd) && is_some (find fd_of fd es) then some entry else find fd_of g es)
  unfolding set_interest
  find-set_interest g [] = elim (Bool-cases (g == fd)) [ inl e ↦ rw e refl | inr e ↦ rw e refl ]
  find-set_interest g (e ∷ es) = elim (Bool-cases (e.fd == fd)) [
    | inl here ↦ elim (Bool-cases (g == fd)) [
      | inl same ↦
          let found : (e.fd == g) ≡ true = ground arith in
          let its : e.fd ≡ fd = ground arith in
          rw (here, same, found)
            (ap (λ n. some (record { fd = n; want_read = read; want_write = write })) its)
      | inr differs ↦ let past : (e.fd == g) ≡ false = ground arith in rw (here, differs, past) refl
    ]
    | inr kept ↦ elim (Bool-cases (e.fd == g)) [
      | inl found ↦ let differs : (g == fd) ≡ false = ground arith in rw (kept, found, differs) refl
      | inr past ↦ rw (kept, past) (find-set_interest g es)
    ]
  ]

  set_interest-Distinct :
      (es : List Entry) → Distinct fd_of es → Distinct fd_of (set_interest fd read write es)
  unfolding set_interest
  set_interest-Distinct [] h = tt
  set_interest-Distinct (e ∷ es) (own, rest) = elim (Bool-cases (e.fd == fd)) [
    | inl here ↦ rw here (own, rest)
    | inr past ↦ rw past (find-set_interest e.fd es ∙ rw past own, set_interest-Distinct es rest)
  ]

  -- The tests of the three operations.
  absent : (l : Loop) → is_some (interest l fd) ≡ false → interest l fd ≡ none
  absent l h = elim (Option-cases (interest l fd)) [
    | inl gone ↦ gone
    | inr (e, got) ↦ absurd (let h' = rw got at h in cc)
  ]

  added :
      (l : Loop) → IsLoop l → Controlled (pos 0) fd read write l (control (pos 0) fd read write l)
  unfolding control
  added l h = elim (Bool-cases (leb max_fds (length l.entries))) [
    | inl full ↦ rw full (record { shape = h; done = λ e. absurd cc; refused = λ e. (refl, refl) })
    | inr room ↦ elim (Bool-cases (is_some (interest l fd))) [
      | inl there ↦
          rw (room, there)
            (record { shape = h; done = λ e. absurd cc; refused = λ e. (refl, refl) })
      | inr new ↦
          let fresh = absent l new in
          rw (room, new)
            (record {
              shape = record {
                distinct = append-Distinct fd_of l.entries entry h.distinct fresh;
                fits = ground (arith, length-append l.entries (entry ∷ []));
              };
              done = λ e. (refl, λ g. find-append fd_of g l.entries entry fresh);
              refused = λ e. absurd cc;
            })
    ]
  ]

  changed :
      (l : Loop) → IsLoop l → Controlled (pos 1) fd read write l (control (pos 1) fd read write l)
  unfolding control
  changed l h = elim (Bool-cases (is_some (interest l fd))) [
    | inr gone ↦ rw gone (record { shape = h; done = λ e. absurd cc; refused = λ e. (refl, refl) })
    | inl there ↦
        let updates : (g : ℕ)
            → interest (record l { entries = set_interest fd read write l.entries }) g
              ≡ (if g == fd then some entry else interest l g) =
          λ g. find-set_interest g l.entries ∙ and_true _ _ (g == fd) _ there in
        rw there (record {
          shape = record {
            distinct = set_interest-Distinct l.entries h.distinct;
            fits = omega (arith, h.fits, length-set_interest l.entries);
          };
          done = λ e. (refl, updates);
          refused = λ e. absurd cc;
        })
  ]

  removed :
      (l : Loop) → IsLoop l → Controlled (pos 2) fd read write l (control (pos 2) fd read write l)
  unfolding control
  removed l h = elim (Bool-cases (is_some (interest l fd))) [
    | inr gone ↦ rw gone (record { shape = h; done = λ e. absurd cc; refused = λ e. (refl, refl) })
    | inl there ↦ rw there (record {
      shape = record {
        distinct = swap_out-Distinct fd_of fd l.entries h.distinct;
        fits = omega (arith, h.fits, length-swap_out fd_of fd l.entries);
      };
      done = λ e. (refl, λ g. find-swap_out fd_of fd g l.entries h.distinct);
      refused = λ e. absurd cc;
    })
  ]

-- xiom_eventloop_ctl keeps a map from descriptors to interests: each operation does what its name says where it is
-- accepted, whatever the order in which the array holds the descriptors, and changes nothing where it is refused.
pub control-Controlled :
    (op : ℤ) (fd : ℕ) (read write : Bool) (l : Loop)
    → IsLoop l
    → Controlled op fd read write l (control op fd read write l)
unfolding control
control-Controlled (pos zero) fd read write l h = added fd read write l h
control-Controlled (pos (suc zero)) fd read write l h = changed fd read write l h
control-Controlled (pos (suc (suc zero))) fd read write l h = removed fd read write l h
control-Controlled (pos (suc (suc (suc n)))) fd read write l h = record {
  shape = h;
  done = λ e. absurd cc;
  refused = λ e. (refl, refl);
}
control-Controlled (negsuc n) fd read write l h = record {
  shape = h;
  done = λ e. absurd cc;
  refused = λ e. (refl, refl);
}
