-- ===== src/Calls/Upload/Reached.antt =====
-- The calls that an upload leaves.
use squelch.Prelude.{◌≡◌, [], ◌∷◌, ◌++◌, ap, ◌∙◌}
use squelch.Calls.{Call, Store}
use squelch.Calls.Fields.{Reply, read_metadata}
use squelch.Calls.Resolve.Rows.{resolve_system-calls, resolve_talkgroup-calls}
use squelch.Calls.Request.{Setup, Upload, Server}
use squelch.Calls.Messages.{call_of}
use squelch.Calls.Upload.{with_call}
use squelch.Calls.Upload.Outcome.{
  IsSettled, IsReached, at_start, at_system, at_talkgroup, IsRefused, IsStored, after_talkgroup,
  after_system,
}

after_talkgroup-calls :
    (h : Setup) (u : Upload) (s : Store) (e : IsSettled h u s)
    → (after_talkgroup h u s e).calls ≡ s.calls
after_talkgroup-calls h u s e =
    resolve_talkgroup-calls u.database u.form e.system e.fields.talkgroup_id (after_system h u s e)
    ∙ resolve_system-calls h.lib u.database u.form e.key.api_key_systems e.fields.system_id s

IsReached-calls : (h : Setup) (u : Upload) (s t : Store) → IsReached h u s t → t.calls ≡ s.calls
IsReached-calls h u s t (at_start same) = ap (λ (x : Store). x.calls) same
IsReached-calls h u s t (at_system key fields is_key same) =
    ap (λ (x : Store). x.calls) same
    ∙ resolve_system-calls h.lib u.database u.form key.api_key_systems fields.system_id s
IsReached-calls h u s t (at_talkgroup e same) =
    ap (λ (x : Store). x.calls) same ∙ after_talkgroup-calls h u s e

module _ (h : Setup) (u : Upload) (s : Server) (out : Server × Reply) where
  pub IsRefused-calls : IsRefused h u s out → out.0.store.calls ≡ s.store.calls
  IsRefused-calls r = IsReached-calls h u s.store out.0.store r.reached

  -- The row of a stored upload.
  abbrev pub stored_call : IsStored h u s out → Call
  stored_call e =
      call_of h.lib u (read_metadata h.lib u.form) e.settled.fields e.audio e.settled.system.id
        e.talkgroup.id e.path e.id e.settled.key.api_key_id

  pub before-calls : (e : IsStored h u s out) → e.before.store.calls ≡ s.store.calls
  before-calls e =
      ap (λ (x : Store). x.calls) e.is_before ∙ after_talkgroup-calls h u s.store e.settled

  pub IsStored-calls :
      (e : IsStored h u s out) → out.0.store.calls ≡ s.store.calls ++ stored_call e ∷ []
  unfolding with_call
  IsStored-calls e =
      ap (λ (o : Server × Reply). o.0.store.calls) e.result
      ∙ ap (λ cs. cs ++ stored_call e ∷ []) (before-calls e)
