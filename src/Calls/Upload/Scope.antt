-- ===== src/Calls/Upload/Scope.antt =====
-- What a scoped API key can do.
use squelch.Prelude.{◌≡◌, ◌⊎◌, true, List, [], ◌∷◌, ◌++◌, some, ap, sym, ◌∙◌, inl, inr, some-inj}
use squelch.Auth.Grants.{SystemGrant, grants_include_system}
use squelch.Middleware.ApiKeys.{Uploader}
use squelch.Calls.{Call, Store}
use squelch.Calls.Fields.{Required, Reply}
use squelch.Calls.Resolve.{resolve_system}
use squelch.Calls.Resolve.Rows.{
  resolve_talkgroup-systems, resolve_system-scoped, resolve_system-granted,
}
use squelch.Calls.Request.{Setup, Upload, Server}
use squelch.Calls.Messages.{call_of}
use squelch.Calls.Upload.{with_call, post_call_upload}
use squelch.Calls.Upload.Outcome.{
  IsSettled, IsReached, at_start, at_system, at_talkgroup, IsStored, after_talkgroup, after_system,
  system_found,
}
use squelch.Calls.Upload.Ends.{post_call_upload-Ends}
use squelch.Calls.Upload.Reached.{IsRefused-calls, IsStored-calls, stored_call}

module _ (h : Setup) (u : Upload) (key : Uploader) (gs : List SystemGrant)
    (is_key : u.uploader ≡ some key) (scoped : key.api_key_systems ≡ some gs) where
  key_scoped : (k : Uploader) → u.uploader ≡ some k → k.api_key_systems ≡ some gs
  key_scoped k e =
      ap (λ (x : Uploader). x.api_key_systems) (some-inj k key (sym e ∙ is_key)) ∙ scoped

  system_found-store :
      (k : Uploader) (fields : Required) (s : Store)
      → u.uploader ≡ some k
      → (system_found h u k fields s).store ≡ s
  system_found-store k fields s e =
      ap (λ gr. (resolve_system h.lib u.database u.form gr fields.system_id s).store)
        (key_scoped k e)
      ∙ resolve_system-scoped h.lib u.database u.form gs fields.system_id s

  after_talkgroup-systems :
      (s : Store) (e : IsSettled h u s) → (after_talkgroup h u s e).systems ≡ s.systems
  after_talkgroup-systems s e =
      resolve_talkgroup-systems u.database u.form e.system e.fields.talkgroup_id
        (after_system h u s e)
      ∙ ap (λ (x : Store). x.systems) (system_found-store e.key e.fields s e.is_key)

  IsReached-systems : (s t : Store) → IsReached h u s t → t.systems ≡ s.systems
  IsReached-systems s t (at_start same) = ap (λ (x : Store). x.systems) same
  IsReached-systems s t (at_system k fields e same) =
      ap (λ (x : Store). x.systems) (same ∙ system_found-store k fields s e)
  IsReached-systems s t (at_talkgroup e same) =
      ap (λ (x : Store). x.systems) same ∙ after_talkgroup-systems s e

  settled-granted :
      (s : Store) (e : IsSettled h u s) → grants_include_system (some gs) e.system.id ≡ true
  settled-granted s e =
      resolve_system-granted h.lib u.database u.form gs e.fields.system_id s e.system (
        ap (λ gr. (resolve_system h.lib u.database u.form gr e.fields.system_id s).answer)
          (sym (key_scoped e.key e.is_key))
        ∙ e.is_system)

  IsStored-systems :
      (s : Server) (out : Server × Reply) (e : IsStored h u s out)
      → out.0.store.systems ≡ s.store.systems
  unfolding with_call
  IsStored-systems s out e =
      ap (λ (o : Server × Reply). o.0.store.systems) e.result
      ∙ ap (λ (x : Store). x.systems) e.is_before
      ∙ after_talkgroup-systems s.store e.settled

-- What an upload with a key of these grants may have changed.
abbrev pub StaysInScope : List SystemGrant → Uploader → Server → Server → Type 0
StaysInScope gs key s s' =
    (s'.store.systems ≡ s.store.systems)
    × ((s'.store.calls ≡ s.store.calls)
        ⊎ (c : Call) × (s'.store.calls ≡ s.store.calls ++ c ∷ [])
          × (grants_include_system (some gs) c.system_id ≡ true)
          × (c.api_key_id ≡ some key.api_key_id))

-- An upload with an API key that has grants neither makes nor changes a system, and a call that it
-- stores is of a system that the grants include and carries the key's id.
pub scoped_key-StaysInScope :
    (h : Setup) (u : Upload) (s : Server) (key : Uploader) (gs : List SystemGrant)
    → u.uploader ≡ some key
    → key.api_key_systems ≡ some gs
    → StaysInScope gs key s (post_call_upload h u s).0
unfolding call_of
scoped_key-StaysInScope h u s key gs is_key scoped =
    let out = post_call_upload h u s in
    elim (post_call_upload-Ends h u s) [
      | inl r ↦ (
        IsReached-systems h u key gs is_key scoped s.store out.0.store r.reached,
        inl (IsRefused-calls h u s out r),
      )
      | inr e ↦ (
        IsStored-systems h u key gs is_key scoped s out e,
        inr (
          stored_call h u s out e,
          IsStored-calls h u s out e,
          settled-granted h u key gs is_key scoped s.store e.settled,
          ap (λ (k : Uploader). some k.api_key_id)
              (some-inj e.settled.key key (sym e.settled.is_key ∙ is_key)),
        ),
      )
    ]
