-- ===== src/Library/Singleton.antt =====
-- The lifetime of the library object, `FacadeLibrary::Acquire`, `AddRef` and `ReleaseRef` of
-- src/FacadeLibrary.cpp, over every order of their calls.
use msg_facade.Prelude.{
  ℕ, zero, suc, ◌<◌, ◌≡◌, refl, ◌⊎◌, inl, inr, true, none, some, [], ◌∷◌, arith,
}
use msg_facade.Library.{
  Process, refs_of, set_refs, delete, add_ref, instantiate, acquire, forget, release_ref,
}

-- The states that a process can come to, with the number of references that are held. An object is
-- only called while it is alive.
pub data Reach : ℕ → Process → Type 0 where
  start : (k : ℕ) → Reach 0 (record { instance_of = none; alive = []; fresh = k })
  acquired : {h : ℕ} {p : Process} → Reach h p → Reach (suc h) (acquire true p).1
  added :
      {h : ℕ} {p : Process} (lib n : ℕ)
      → refs_of lib p.alive ≡ some n
      → Reach h p
      → Reach (suc h) (add_ref lib p)
  released :
      {h : ℕ} {p : Process} (lib n : ℕ)
      → refs_of lib p.alive ≡ some n
      → Reach (suc h) p
      → Reach h (release_ref lib p).1

-- Nothing is held and there is no object, or there is one object: the instance, with the number of
-- references as its count.
abbrev pub IsCounted : ℕ → Process → Type 0
IsCounted h p =
    ((h ≡ 0) × (p.instance_of ≡ none) × (p.alive ≡ []))
    ⊎ ((lib : ℕ) × (0 < h) × (p.instance_of ≡ some lib) × (p.alive ≡ (lib, h) ∷ []))

acquire-IsCounted : (h : ℕ) (p : Process) → IsCounted h p → IsCounted (suc h) (acquire true p).1
unfolding acquire instantiate add_ref refs_of set_refs
acquire-IsCounted h p (inl (e, i, a)) = inr (p.fresh, omega arith, ground arith, ground arith)
acquire-IsCounted h p (inr (lib, less, i, a)) = inr (lib, omega arith, ground arith, ground arith)

add_ref-IsCounted :
    (h lib n : ℕ) (p : Process)
    → refs_of lib p.alive ≡ some n
    → IsCounted h p
    → IsCounted (suc h) (add_ref lib p)
unfolding add_ref refs_of set_refs
add_ref-IsCounted h lib n p alive (inl (e, i, a)) = absurd (ground arith)
add_ref-IsCounted h lib n p alive (inr (l, less, i, a)) =
    inr (l, omega arith, ground arith, ground arith)

release_ref-IsCounted :
    (h lib n : ℕ) (p : Process)
    → refs_of lib p.alive ≡ some n
    → IsCounted (suc h) p
    → IsCounted h (release_ref lib p).1
unfolding release_ref refs_of set_refs delete forget
release_ref-IsCounted h lib n p alive (inl (e, i, a)) = absurd (ground arith)
release_ref-IsCounted zero lib n p alive (inr (l, less, i, a)) =
    inl (refl, ground arith, ground arith)
release_ref-IsCounted (suc h) lib n p alive (inr (l, less, i, a)) =
    inr (l, omega arith, ground arith, ground arith)

-- However the calls of Acquire, AddRef and ReleaseRef follow one another, each on an object that is
-- alive: there is an object exactly while references are held, it is the only one, the instance pointer
-- names it, and its count is the number of references that are held.
pub Reach-IsCounted : (h : ℕ) (p : Process) → Reach h p → IsCounted h p
Reach-IsCounted h p (start k) = inl (refl, refl, refl)
Reach-IsCounted h p (acquired r) = acquire-IsCounted _ _ (Reach-IsCounted _ _ r)
Reach-IsCounted h p (added lib n e r) = add_ref-IsCounted _ lib n _ e (Reach-IsCounted _ _ r)
Reach-IsCounted h p (released lib n e r) = release_ref-IsCounted _ lib n _ e (Reach-IsCounted _ _ r)
