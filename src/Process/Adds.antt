-- ===== src/Process/Adds.antt =====
-- What the steps of the quoting add to the buffer (runtime/xiom_runtime.c, 5009 to 5080).
use stdlib.Base.{
  ℕ, zero, suc, ◌-◌, ◌*◌, ◌≡◌, refl, sym, ap, ◌∙◌, subst, inl, inr, Option, none, some, List, [],
  ◌∷◌, ◌++◌, arith, leb, length, replicate, Bool-cases,
}
use mathlib.Core.List.{append_assoc, append-nil}
use stdlib.Base.Chain.{◌>>=◌}
use stdlib.Process.Quoting.{backslash, put_byte, put_times, put_plain, put_pairs}

abbrev pub slashes : ℕ → List ℕ
slashes n = replicate n backslash

-- What a step of the writer adds to the buffer.
abbrev pub Adds : List ℕ → List ℕ → Option (List ℕ) → Type 0
Adds out more none = Unit {0}
Adds out more (some out') = out' ≡ out ++ more

pub put_byte-Adds : (cap c : ℕ) (out : List ℕ) → Adds out (c ∷ []) (put_byte cap c out)
unfolding put_byte
put_byte-Adds cap c out = elim (Bool-cases (leb (cap - 1) (length out))) [
  | inl full ↦ rw (Adds, full) tt
  | inr room ↦ rw (Adds, room) refl
]

after_some :
    (out xs ys : List ℕ) (o : Option (List ℕ)) → Adds (out ++ xs) ys o → Adds out (xs ++ ys) o
after_some out xs ys none h = tt
after_some out xs ys (some o) h = h ∙ append_assoc out xs ys

pub then-Adds :
    (out xs ys : List ℕ) (o : Option (List ℕ)) (f : List ℕ → Option (List ℕ))
    → Adds out xs o
    → ((out' : List ℕ) → Adds out' ys (f out'))
    → Adds out (xs ++ ys) (o >>= f)
then-Adds out xs ys none f h next = tt
then-Adds out xs ys (some o) f h next =
    after_some out xs ys (f o) (subst (λ zs. Adds zs ys (f o)) h (next o))

pub put_times-Adds : (cap n c : ℕ) (out : List ℕ) → Adds out (replicate n c) (put_times cap n c out)
unfolding put_times
put_times-Adds cap zero c out = sym (append-nil out)
put_times-Adds cap (suc n) c out =
    then-Adds out (c ∷ []) (replicate n c) (put_byte cap c out) _ (put_byte-Adds cap c out)
      (λ out'. put_times-Adds cap n c out')

pub put_plain-Adds : (cap : ℕ) (cs out : List ℕ) → Adds out cs (put_plain cap cs out)
unfolding put_plain
put_plain-Adds cap [] out = sym (append-nil out)
put_plain-Adds cap (c ∷ cs) out =
    then-Adds out (c ∷ []) cs (put_byte cap c out) _ (put_byte-Adds cap c out)
      (λ out'. put_plain-Adds cap cs out')

pub put_pairs-Adds :
    (cap bs : ℕ) (out : List ℕ) → Adds out (slashes (2 * bs)) (put_pairs cap bs out)
unfolding put_pairs
put_pairs-Adds cap zero out = sym (append-nil out)
put_pairs-Adds cap (suc bs) out =
    let twice : 2 * suc bs ≡ suc (suc (2 * bs)) = omega arith in
    subst (λ n. Adds out (slashes n) (put_pairs cap (suc bs) out)) (sym twice)
      (elim (Bool-cases (leb (cap - 2) (length out))) [
        | inl full ↦ rw (Adds, full) tt
        | inr room ↦ rw room (
            after_some out (backslash ∷ backslash ∷ []) (slashes (2 * bs)) _
              (put_pairs-Adds cap bs _))
      ])

-- What a step adds, with a property of it.
abbrev pub Written : List ℕ → (List ℕ → Type 0) → Option (List ℕ) → Type 0
Written out P none = Unit {0}
Written out P (some out') = (more : List ℕ) × (out' ≡ out ++ more) × P more

pub then-Written :
    (out xs : List ℕ) (P Q : List ℕ → Type 0) (o : Option (List ℕ)) (f : List ℕ → Option (List ℕ))
    → Adds out xs o
    → ((out' : List ℕ) → Written out' P (f out'))
    → ((more : List ℕ) → P more → Q (xs ++ more))
    → Written out Q (o >>= f)
then-Written out xs P Q none f h next keeps = tt
then-Written out xs P Q (some o) f h next keeps = behind (f o) (next o)
  where
    behind : (r : Option (List ℕ)) → Written o P r → Written out Q r
    behind none w = tt
    behind (some out') (more, e, p) =
        (xs ++ more, e ∙ ap (λ ys. ys ++ more) h ∙ append_assoc out xs more, keeps more p)

pub last-Written :
    (out xs : List ℕ) (P : List ℕ → Type 0) (o : Option (List ℕ))
    → Adds out xs o
    → P xs
    → Written out P o
last-Written out xs P none h p = tt
last-Written out xs P (some out') h p = (xs, h, p)
