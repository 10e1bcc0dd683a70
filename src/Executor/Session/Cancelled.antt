-- ===== src/Executor/Session/Cancelled.antt =====
-- A cancelled chain falls silent (`handleCancel` and `Route` of kernel/internal/executor/session.go).
use deepaxiom_aura.Base.{
  true, inl, inr, List, [], ◌∷◌, ◌++◌, ◌≡◌, ◌≢◌, refl, Bool-cases, ◌==◌, string_eq, beq_ne,
  str_eq_iff,
}
use deepaxiom_aura.Channel.{Envelope, kind_data, kind_cancel}
use deepaxiom_aura.Channel.Dedup.{seen}
use deepaxiom_aura.Ledger.Records.{Outside}
use deepaxiom_aura.Executor.Causal.{Hop, has, add, take}
use deepaxiom_aura.Executor.Causal.Bounds.{Cancelled-Inv}
use deepaxiom_aura.Executor.Causal.Reads.{has-added}
use deepaxiom_aura.Executor.Session.{
  Session, Host, Turn, root_of, kind_confirm_response, append_event,
}
use deepaxiom_aura.Executor.Session.Route.{ask_all, handle_cancel, cancel_root, route_onward, route}

module _ {Approval Hash Raw Other : Type 0} (env : Outside Approval Hash Raw)
    (host : Host Approval Other) where
  -- The state that an envelope of a cancelled chain leaves: it is in the log, and its key among the seen.
  abbrev pub IsUnmoved : Session Approval Hash Raw → Session Approval Hash Raw → Envelope → Type 0
  IsUnmoved s s' e =
      (s'.outputs ≡ s.outputs)
      × (s'.ledger ≡ s.ledger)
      × (s'.pending ≡ s.pending)
      × (s'.in_flight ≡ s.in_flight)
      × (s'.events ≡ s.events ++ record { id = e.id; cause_id = e.cause_id; kind = e.kind } ∷ [])

  silenced :
      (t : Turn) (s : Session Approval Hash Raw) (e : Envelope)
      → has s.cancelled (root_of s e) ≡ true
      → e.kind ≢ kind_cancel
      → e.kind ≢ kind_confirm_response
      → IsUnmoved s (route env host t s e) e
  unfolding route route_onward root_of
  silenced t s e gone not_cancel not_answer =
      let on1 = beq_ne e.kind kind_cancel not_cancel in
      let on2 = beq_ne e.kind kind_confirm_response not_answer in
      elim (Bool-cases (e.kind == kind_data)) [
        | inr other ↦ rw (route, on1, other, on2, route_onward, gone) (refl, refl, refl, refl, refl)
        | inl data_env ↦ elim (Bool-cases (seen s.dedup e.idem).1) [
          | inl again ↦ rw (route, on1, data_env, again) (refl, refl, refl, refl, refl)
          | inr new ↦
              rw (route, on1, data_env, new, route_onward, gone) (refl, refl, refl, refl, refl)
        ]
      ]

  cancelled-ask_all :
      (hs : List Hop) (s : Session Approval Hash Raw)
      → (ask_all env host s hs).cancelled ≡ s.cancelled
  unfolding ask_all
  cancelled-ask_all [] s = refl
  cancelled-ask_all (h ∷ hs) s = cancelled-ask_all hs _

  cancelled-handle_cancel :
      (s : Session Approval Hash Raw) (c : Envelope)
      → cancel_root env host s c ≢ ""
      → (handle_cancel env host s c).cancelled ≡ add s.cancelled (cancel_root env host s c)
  unfolding handle_cancel
  cancelled-handle_cancel s c named =
      rw (beq_ne _ "" named) (cancelled-ask_all (take s.in_flight (cancel_root env host s c)).1 _)

  -- After route of a cancel that names a chain, route of any other envelope of that chain, neither a
  -- cancel nor the answer to a gate, emits nothing and leaves the ledger, the waiting gates and the
  -- deliveries in flight as they are, while the event log gains the envelope.
  pub cancel_silences :
      (t later : Turn) (s : Session Approval Hash Raw) (c e : Envelope)
      → Cancelled-Inv s.cancelled
      → c.kind ≡ kind_cancel
      → cancel_root env host s c ≢ ""
      → root_of (route env host t s c) e ≡ cancel_root env host s c
      → e.kind ≢ kind_cancel
      → e.kind ≢ kind_confirm_response
      → IsUnmoved (route env host t s c) (route env host later (route env host t s c) e) e
  unfolding route
  cancel_silences t later s c e inv cancels named chain not_cancel not_answer =
      let logged = append_event s c.id c.cause_id c.kind in
      let is_cancel : (c.kind == kind_cancel) ≡ true = (str_eq_iff c.kind kind_cancel).1 cancels in
      let marked : (route env host t s c).cancelled ≡ add s.cancelled (cancel_root env host s c) =
        rw (route, is_cancel) (cancelled-handle_cancel logged c named) in
      silenced later (route env host t s c) e
        (rw (chain, marked) (has-added s.cancelled (cancel_root env host s c) inv named)) not_cancel
        not_answer
