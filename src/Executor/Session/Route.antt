-- ===== src/Executor/Session/Route.antt =====
-- What becomes of an envelope (`Route`, `forwardSpeculatively`, `abandonSpeculation`, `handleCancel` and
-- `recordAttestation` of kernel/internal/executor/session.go).
use deepaxiom_aura.Base.{
  String, not, ◌||◌, Option, none, some, List, [], ◌∷◌, ◌==◌, string_eq, ◌+++◌, if◌then◌else◌,
  lookup, length, nat_beq,
}
use deepaxiom_aura.Channel.{Envelope, kind_data, kind_cancel}
use deepaxiom_aura.Channel.Dedup.{seen}
use deepaxiom_aura.Ledger.Records.{Outside}
use deepaxiom_aura.Executor.Types.{Dest, gate_human_approval}
use deepaxiom_aura.Executor.Causal.{Hop, get, take, add, has, attest_add}
use deepaxiom_aura.Executor.Speculation.{SpecKey, fold, is_final, mark_final, speculate, resolve}
use deepaxiom_aura.Executor.Session.{
  Session, Host, Turn, cancelling, root_of, emit, append_event, mint, kind_confirm_response,
}
use deepaxiom_aura.Executor.Session.Forward.{forward}
use deepaxiom_aura.Executor.Session.Gate.{hold_for_approval, resolve_gate}

abbrev pub or_no_dest : Option (List Dest) → List Dest
or_no_dest none = []
or_no_dest (some ds) = ds

module _ {Approval Hash Raw Other : Type 0} (env : Outside Approval Hash Raw)
    (host : Host Approval Other) where
  unfoldable pub record_attestation :
      Session Approval Hash Raw → String → Envelope → Session Approval Hash Raw
  record_attestation s root e =
      if nat_beq (length e.attest) 0 || (root == "")
      then s
      else elim (host.attestation_hash e.attest) [
        | none ↦ s
        | some hash ↦
            if host.attestation_stored hash
            then record s { attests = attest_add s.attests root hash }
            else s
      ]

  unfoldable pub abandon_speculation :
      Session Approval Hash Raw → String → Dest → Session Approval Hash Raw
  abandon_speculation s envelope_id d =
      let stopped : Session Approval Hash Raw = record s {
        cancelled = add s.cancelled envelope_id;
      } in
      elim d.skill [
        | none ↦ stopped
        | some _ ↦
            let (id, s') = mint host stopped in
            emit (append_event s' id envelope_id kind_cancel) (cancelling d envelope_id)
      ]

  unfoldable pub abandon_all :
      Session Approval Hash Raw → List String → Dest → Session Approval Hash Raw
  abandon_all s [] d = s
  abandon_all s (id ∷ ids) d = abandon_all (abandon_speculation s id d) ids d

  -- The rest of a speculative hop, with the running value: a partial is delivered as if it were final, a
  -- hit delivers nothing, and a miss abandons the guesses and delivers the truth.
  unfoldable pub reconcile :
      Turn
      → Session Approval Hash Raw
      → Envelope
      → Dest
      → SpecKey
      → Option String
      → Session Approval Hash Raw
  reconcile t s e d key running =
      if not (is_final host.json (host.text_of e.payload))
      then (let guessed =
            forward env host t s
              (record e { payload = host.bytes_of (mark_final host.json running) }) d in
          record guessed { spec = speculate guessed.spec key e.id })
      else (let (spec', hit, stale) = resolve host.json s.spec key running in
          let settled : Session Approval Hash Raw = record s { spec = spec' } in
          if hit
          then settled
          else forward env host t (abandon_all settled stale d)
              (record e { payload = host.bytes_of running }) d)

  unfoldable pub forward_speculatively :
      Turn → Session Approval Hash Raw → Envelope → Dest → String → Session Approval Hash Raw
  forward_speculatively t s e d root =
      if not (e.kind == kind_data) || (root == "")
      then forward env host t s e d
      else (let key : SpecKey = record { root = root; from = d.from } in
          let (spec', running) = fold host.json s.spec key e.schema (host.text_of e.payload) in
          reconcile t (record s { spec = spec' }) e d key running)

  -- One destination of an envelope that travels.
  unfoldable pub travel :
      Turn → Session Approval Hash Raw → Envelope → String → Dest → Session Approval Hash Raw
  travel t s e root d =
      if d.speculative
      then forward_speculatively t s e d root
      else if d.gate == gate_human_approval
      then hold_for_approval env host s e d
      else forward env host t s e d

  unfoldable pub travel_all :
      Turn → Session Approval Hash Raw → Envelope → String → List Dest → Session Approval Hash Raw
  travel_all t s e root [] = s
  travel_all t s e root (d ∷ ds) = travel_all t (travel t s e root d) e root ds

  unfoldable pub ask_all : Session Approval Hash Raw → List Hop → Session Approval Hash Raw
  ask_all s [] = s
  ask_all s (h ∷ hs) =
      (let (_, s') = mint host s in ask_all (emit s' (cancelling h.to h.cause_id)) hs)

  -- The root that a cancel names.
  abbrev pub cancel_root : Session Approval Hash Raw → Envelope → String
  cancel_root s e = elim (get s.causal e.cause_id) [ none ↦ e.cause_id | some root ↦ root ]

  unfoldable pub handle_cancel : Session Approval Hash Raw → Envelope → Session Approval Hash Raw
  handle_cancel s e =
      let root = cancel_root s e in
      if root == ""
      then s
      else (let (in_flight', hops) = take s.in_flight root in
          ask_all (record s { cancelled = add s.cancelled root; in_flight = in_flight' }) hops)

  -- An envelope that is neither a cancel, nor a duplicate, nor the answer to a gate.
  unfoldable pub route_onward :
      Turn → Session Approval Hash Raw → Envelope → Session Approval Hash Raw
  route_onward t s e =
      let root = root_of s e in
      if has s.cancelled root
      then s
      else (let s' = record_attestation s root e in
          travel_all t s' e root (or_no_dest (lookup (e.node +++ "." +++ e.port) s'.routes)))

  unfoldable pub route : Turn → Session Approval Hash Raw → Envelope → Session Approval Hash Raw
  route t s e =
      let logged = append_event s e.id e.cause_id e.kind in
      if e.kind == kind_cancel
      then handle_cancel logged e
      else if e.kind == kind_data
      then (let (dedup', again) = seen logged.dedup e.idem in
          let marked : Session Approval Hash Raw = record logged { dedup = dedup' } in
          if again then marked else route_onward t marked e)
      else if e.kind == kind_confirm_response
      then resolve_gate env host t logged e
      else route_onward t logged e
