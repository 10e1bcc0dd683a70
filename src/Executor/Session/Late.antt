-- ===== src/Executor/Session/Late.antt =====
-- An effect whose deadline has passed (`forward` of kernel/internal/executor/session.go).
use deepaxiom_aura.Base.{true, some, inl, inr, ◌≡◌, refl, sym, ap, ◌∙◌, subst, Bool-cases}
use deepaxiom_aura.Channel.{Envelope}
use deepaxiom_aura.Ledger.Records.{
  Ledger, SealReply, sealed, unchecked, unsealed, broken_tree, Outside,
}
use deepaxiom_aura.Ledger.Chain.{seal}
use deepaxiom_aura.Ledger.Chain.Attested.{Attests, seal-Attests}
use deepaxiom_aura.Executor.Types.{Dest, Live}
use deepaxiom_aura.Executor.Budget.{drop_expired}
use deepaxiom_aura.Executor.Policy.{seal_failure_refuses}
use deepaxiom_aura.Executor.Session.{
  Session, Host, Turn, take_approval, root_of, unsealable, emit_error,
}
use deepaxiom_aura.Executor.Session.Forward.{
  trace_hop, is_effect_hop, seal_request, seal_outcome, seal_live, send_hop, finish_hop, seal_hop,
}
use deepaxiom_aura.Executor.Session.Emits.{
  Adds, Adds-nothing, emit_error-Adds, outputs-take_approval,
}
use deepaxiom_aura.Executor.Session.Sealed.{seal_effect-live, trace_hop-keeps}

abbrev pub Nothing : Dest → Envelope → Type 0
Nothing d e = ⊥

module _ {Approval Hash Raw Other : Type 0} (env : Outside Approval Hash Raw)
    (host : Host Approval Other) where
  -- Nothing is delivered, and the ledger is the one that a call left.
  abbrev pub IsDropped :
      Session Approval Hash Raw → Session Approval Hash Raw → Ledger Hash Raw → Type 0
  IsDropped s after l' = Adds Nothing s.outputs after.outputs × (after.ledger ≡ some l')

  send_late :
      (t : Turn) (s : Session Approval Hash Raw) (src out : Envelope) (d : Dest)
      (l' : Ledger Hash Raw)
      → drop_expired t.now out ≡ true
      → s.ledger ≡ some l'
      → IsDropped s (send_hop env host t s src out d) l'
  unfolding send_hop
  send_late t s src out d l' late kept = rw late (Adds-nothing Nothing s.outputs, kept)

  failed_late :
      (t : Turn) (s : Session Approval Hash Raw) (src out : Envelope) (d : Dest)
      (l' : Ledger Hash Raw) (reply : SealReply)
      → drop_expired t.now out ≡ true
      → s.ledger ≡ some l'
      → IsDropped s (finish_hop env host t src d (s, out, some reply)) l'
  unfolding finish_hop emit_error
  failed_late t s src out d l' reply late kept = elim (Bool-cases (seal_failure_refuses s.policy)) [
    | inl stop ↦ rw stop (emit_error-Adds env host Nothing s src.id (unsealable reply), kept)
    | inr go ↦ rw go (send_late t s src out d l' late kept)
  ]

  finish_late :
      (t : Turn) (s : Session Approval Hash Raw) (src out : Envelope) (d : Dest)
      (l' : Ledger Hash Raw) (reply : SealReply)
      → drop_expired t.now out ≡ true
      → s.ledger ≡ some l'
      → IsDropped s (finish_hop env host t src d (seal_outcome env host s out reply)) l'
  unfolding finish_hop seal_outcome drop_expired emit_error
  finish_late t s src out d l' (sealed receipt) late kept =
      send_late t s src (record out { receipt = receipt }) d l' late kept
  finish_late t s src out d l' (unchecked receipt) late kept =
      failed_late t s src out d l' (unchecked receipt) late kept
  finish_late t s src out d l' (unsealed err) late kept =
      failed_late t s src out d l' (unsealed err) late kept
  finish_late t s src out d l' broken_tree late kept =
      failed_late t s src out d l' broken_tree late kept

  -- In a session with a ledger, the hop of an effect whose deadline has passed delivers nothing,
  -- whatever the ledger answers, and yet the session keeps the ledger that sealing the hop's own
  -- request leaves, whose rows are one longer by an entry of that envelope and of that skill's
  -- capability with the outcome delivered, or the same where the reply of the seal carries no
  -- receipt.
  pub late_effect_sealed :
      (t : Turn) (s : Session Approval Hash Raw) (src out : Envelope) (d : Dest) (live : Live)
      (l : Ledger Hash Raw)
      → s.ledger ≡ some l
      → d.skill ≡ some live
      → is_effect_hop env host live out ≡ true
      → drop_expired t.now out ≡ true
      → let root = root_of s src in
        let (asked, approver) = take_approval (trace_hop env host s out root d) out.cause_id in
        let req = seal_request env host asked out d live root approver in
        let (l', reply) = seal env l t.world req in
        IsDropped s (seal_hop env host t s src out d) l'
        × Attests env l l' reply out.id live.capability "delivered"
  unfolding seal_hop seal_live seal_request
  late_effect_sealed t s src out d live l has_ledger skilled effect late =
      let root = root_of s src in
      let s1 = trace_hop env host s out root d in
      let (s2, approver) = take_approval s1 out.cause_id in
      let req = seal_request env host s2 out d live root approver in
      let (l', reply) = seal env l t.world req in
      let s3 : Session Approval Hash Raw = record s2 { ledger = some l' } in
      let (kept, _, heard) = trace_hop-keeps env host s out root d in
      let run =
        seal_effect-live env host t s1 out d root live l (kept ∙ has_ledger) skilled effect in
      let (quiet, stored) = finish_late t s3 src out d l' reply late refl in
      let same : s2.outputs ≡ s.outputs = outputs-take_approval env host s1 out.cause_id ∙ heard in
      (
        subst (λ x. IsDropped s x l') (sym (ap (finish_hop env host t src d) run))
            (
              subst
                  (λ outs.
                    Adds Nothing outs
                      (finish_hop env host t src d (seal_outcome env host s3 out reply)).outputs)
                  same quiet,
              stored,
            ),
        seal-Attests env l t.world req,
      )
