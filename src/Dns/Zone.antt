-- ===== src/Dns/Zone.antt =====
-- app/st_dns/dns_proto.h: which names st_dns_name_in_zone takes.
use sthread.Prelude.{
  ℕ, ◌-◌, ◌<◌, ◌≡◌, ◌≢◌, ◌↔◌, ◌⊎◌, refl, sym, ap, ◌∙◌, inl, inr, List, [], ◌∷◌, ◌++◌, length,
  length-append, take, drop, take-drop, drop-append, true, bytes_eq, bytes_eq→eq, bytes_eq_refl,
  Bool-cases, arith,
}
use sthread.Dns.{in_suffix, name_in_zone, bench_local, bench_sthread_local}

-- a domain, or a name below it; `suffix` is the domain with a dot before it
abbrev pub InDomain : List ℕ → List ℕ → Type 0
InDomain suffix name = (name ≡ drop 1 suffix) ⊎ ((below : List ℕ) × (name ≡ below ++ suffix))

in_suffix→InDomain : (name suffix : List ℕ) → in_suffix name suffix ≡ true → InDomain suffix name
unfolding in_suffix
in_suffix→InDomain name suffix h =
    let n = length name - length suffix in
    elim (Bool-cases (bytes_eq name (drop 1 suffix))) [
      | inl y ↦ inl (bytes_eq→eq name (drop 1 suffix) y)
      | inr y ↦ inr (
        take n name,
        sym (take-drop n name)
            ∙ ap (λ v. take n name ++ v) (bytes_eq→eq (drop n name) suffix (ground arith)),
      )
    ]

InDomain→in_suffix :
    (name suffix : List ℕ) → 0 < length suffix → InDomain suffix name → in_suffix name suffix ≡ true
unfolding in_suffix
InDomain→in_suffix name (c ∷ s) p (inl e) = rw e (ground (arith, bytes_eq_refl s))
InDomain→in_suffix name [] p (inl e) = absurd (omega arith)
InDomain→in_suffix name suffix p (inr (below, e)) =
    let size = length-append below suffix in
    let n : length (below ++ suffix) - length suffix ≡ length below = omega (arith, size) in
    rw (e, n, drop-append, bytes_eq_refl) (ground (arith, size))

-- A name that is not empty is in the zone exactly when it is bench.local or bench.sthread.local or
-- ends in one of these behind a dot.
pub name_in_zone_iff :
    (name : List ℕ)
    → name ≢ []
    → (name_in_zone name ≡ true) ↔ (InDomain bench_local name ⊎ InDomain bench_sthread_local name)
unfolding name_in_zone
name_in_zone_iff [] n = absurd (n refl)
name_in_zone_iff (c ∷ s) n = (
  (λ h. elim (Bool-cases (in_suffix (c ∷ s) bench_local)) [
    | inl y ↦ inl (in_suffix→InDomain (c ∷ s) bench_local y)
    | inr y ↦ inr (in_suffix→InDomain (c ∷ s) bench_sthread_local (rw y at h))
  ]),
  (λ d. elim d [
    | inl x ↦ rw (InDomain→in_suffix (c ∷ s) bench_local (omega arith) x)
    | inr x ↦
        let e = InDomain→in_suffix (c ∷ s) bench_sthread_local (omega arith) x in ground (arith, e)
  ]),
)
