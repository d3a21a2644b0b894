-- ===== src/Mcp/Requests.antt =====
-- crates/mcp/src/lib.rs: `request` of any callers and the reader, in any order: each lock of the map of
-- pending requests is one step, the first together with the atomic counter, which does not wrap here.
use entheai.Base.{ℕ, suc, ◌≤◌, ◌≡◌, refl, ◌∙◌, true, false, List, [], ◌∷◌, arith, nat_eq, ==_iff}
use entheai.Base.Sets.{member, discard, distinct, member-discard, distinct-discard}
use entheai.Mcp.Loop.{Decoder, Router, handle, drain}
use entheai.Mcp.Pending.{answers, due, handle-Keeps, drain-due}

pub record Client (Value : Type 0) : Type 0 where
  pub router : Router Value
  pub next_id : ℕ

-- A new request takes the next number and waits; one that cannot be written or has waited for too
-- long stops waiting.
unfoldable pub send : {Value : Type 0} → Client Value → Client Value
send c = record {
  router = record c.router { pending = c.next_id ∷ c.router.pending };
  next_id = suc c.next_id;
}

unfoldable pub give_up : {Value : Type 0} → ℕ → Client Value → Client Value
give_up id c = record c { router = record c.router { pending = discard id c.router.pending } }

pub data Reached {Value : Type 0} (decoder : Decoder Value) : Client Value → Type 0 where
  start : Reached decoder (record { router = record { pending = []; sent = [] }; next_id = 1 })
  sends : (c : Client Value) → Reached decoder c → Reached decoder (send c)
  gives_up : (c : Client Value) (id : ℕ) → Reached decoder c → Reached decoder (give_up id c)
  arrives :
      (c : Client Value) (line : List ℕ)
      → Reached decoder c
      → Reached decoder (record c { router = handle decoder line c.router })
  ends :
      (c : Client Value)
      → Reached decoder c
      → Reached decoder (record c { router = drain c.router })

abbrev IsOnce : {Value : Type 0} → Client Value → Type 0
IsOnce c =
    (distinct c.router.pending ≡ true)
    × ((id : ℕ) → (due id c.router ≤ 1) × (c.next_id ≤ id → due id c.router ≡ 0))

module _ {Value : Type 0} (decoder : Decoder Value) where
  Reached-IsOnce : (c : Client Value) → Reached decoder c → IsOnce c
  unfolding send give_up drain
  Reached-IsOnce _ start = (refl, λ id. (omega arith, λ h. refl))
  Reached-IsOnce _ (sends c r) =
      let (d, f) = Reached-IsOnce c r in
      let unused = (f c.next_id).1 (omega arith) in
      let fresh : member c.next_id c.router.pending ≡ false = ground (arith, unused) in
      (
        rw fresh d,
        λ id. (
          ground (arith, f id, unused, ==_iff c.next_id id),
          λ h. ground (arith, f id, ==_iff c.next_id id, h),
        ),
      )
  Reached-IsOnce _ (gives_up c id r) =
      let (d, f) = Reached-IsOnce c r in
      (
        distinct-discard id c.router.pending d,
        λ j. (
          ground (arith, f j, member-discard id j c.router.pending),
          λ h. ground (arith, f j, h, member-discard id j c.router.pending),
        ),
      )
  Reached-IsOnce _ (arrives c line r) =
      let (d, f) = Reached-IsOnce c r in
      let (d', k) = handle-Keeps decoder line c.router d in
      (d', λ id. (omega (arith, k id, f id), λ h. k id ∙ (f id).1 h))
  Reached-IsOnce _ (ends c r) =
      let (d, f) = Reached-IsOnce c r in
      (
        refl,
        λ id. (
          ground (arith, drain-due id c.router d, f id),
          λ h. ground (arith, drain-due id c.router d, f id, h),
        ),
      )

  -- In every order of the steps, a request is answered at most once, and while it waits it has not
  -- been answered.
  pub Reached-answers :
      (c : Client Value) (id : ℕ)
      → Reached decoder c
      → (answers id c.router.sent ≤ 1)
        × (member id c.router.pending ≡ true → answers id c.router.sent ≡ 0)
  Reached-answers c id r =
      let (_, f) = Reached-IsOnce c r in (ground (arith, f id), λ h. ground (arith, f id, h))
