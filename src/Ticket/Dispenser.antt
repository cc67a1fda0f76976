-- ===== src/Ticket/Dispenser.antt =====
-- Tickets modulo 2 ^ 32: who may hold which, when one is drawn and when one is given back.
use shfllock.Base.{
  ℕ, ◌+◌, ◌-◌, ◌%◌, ◌^◌, ◌≤◌, ◌<◌, ◌≡◌, Option, none, some, arith, assign, tally, tally-assign,
  tally-le, tally_ext, ◌∙◌,
}

abbrev pub modulus : ℕ
modulus = 2 ^ 32

-- `grant` is the ticket that is served.
abbrev pub ahead : ℕ → ℕ → ℕ
ahead grant t = (t + modulus - grant) % modulus

abbrev pub holds : Option ℕ → ℕ
holds none = 0
holds (some t) = 1

-- `held` says which ticket each thread holds. Tickets in use are those from `grant` on.
pub record Dispensed (n request grant : ℕ) (held : ℕ → Option ℕ) : Type 0 where
  pub request_small : request < modulus
  pub grant_small : grant < modulus
  pub handed : request ≡ (grant + tally holds n held) % modulus
  pub range :
      (i t : ℕ) → i < n → held i ≡ some t → (t < modulus) × (ahead grant t < tally holds n held)
  pub unique : (i j t : ℕ) → i < n → j < n → held i ≡ some t → held j ≡ some t → i ≡ j

module _ {n request grant : ℕ} {held : ℕ → Option ℕ} (d : Dispensed n request grant held)
    (few : n < modulus) (i : ℕ) (low : i < n) where
  tally-few : (f : ℕ → Option ℕ) → tally holds n f ≤ n
  tally-few = tally-le holds (λ o. ground arith) n

  -- A thread without a ticket draws the next one.
  pub draw :
      held i ≡ none → Dispensed n ((request + 1) % modulus) grant (assign held i (some request))
  draw e =
      let count = tally-assign holds n held i (some request) low in
      let bound = tally-few (assign held i (some request)) in
      record {
        request_small = omega arith;
        grant_small = d.grant_small;
        handed = ground (arith, d.handed, count, bound);
        range = λ j t hj h.
            ground (arith, d.handed, d.range j t, count, bound, d.request_small, d.grant_small);
        unique = λ j k t hj hk p q. ground (
          arith,
          d.handed,
          d.range j t,
          d.range k t,
          d.unique j k t,
          count,
          bound,
          d.request_small,
          d.grant_small,
        );
      }

  -- The thread that is served gives its ticket back.
  pub drop : held i ≡ some grant → Dispensed n request ((grant + 1) % modulus) (assign held i none)
  drop e =
      let count = tally-assign holds n held i none low in
      let bound = tally-few held in
      record {
        request_small = d.request_small;
        grant_small = omega arith;
        handed = ground (arith, d.handed, count, bound, d.grant_small);
        range =
            λ j t hj h. ground (arith, d.range j t, d.unique i j t, count, bound, d.grant_small);
        unique = λ j k t hj hk p q. ground (arith, d.unique j k t);
      }

-- Only the tickets of the threads that exist matter.
pub Dispensed-ext :
    {n request grant : ℕ} {f g : ℕ → Option ℕ}
    → ((j : ℕ) → j < n → f j ≡ g j)
    → Dispensed n request grant f
    → Dispensed n request grant g
Dispensed-ext {n} {f} {g} same d =
    let count = tally_ext holds n f g same in
    record {
      request_small = d.request_small;
      grant_small = d.grant_small;
      handed = omega (arith, d.handed, count);
      range = λ i t hi h. ground (arith, d.range i t, same i hi, count);
      unique = λ i j t hi hj p q. d.unique i j t hi hj (same i hi ∙ p) (same j hj ∙ q);
    }
