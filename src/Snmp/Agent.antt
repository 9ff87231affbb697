-- ===== src/Snmp/Agent.antt =====
-- firmware/src/snmp.rs: the agent that answers SNMP requests, over what it reads from the other
-- tasks.
use Prim.Native.Nat.{compare, Ordering}
use micro_bacnet_bridge.Base.{
  ℕ, ◌+◌, ◌/◌, ◌%◌, ◌^◌, List, [], ◌∷◌, ◌++◌, length, take, Bool, true, false, not, ◌==◌, ltb,
  if◌then◌else◌, Option, none, some, Result, ok, err, panic, stuck,
}
use micro_bacnet_bridge.Error.{EncodeError, DecodeError}
use micro_bacnet_bridge.Slice.{bytes_eq}
use micro_bacnet_bridge.Snmp.{
  tag_get_next_request, SnmpValue, octet_string, counter32, gauge32, time_ticks, VarBind,
  SnmpRequest,
}
use micro_bacnet_bridge.Snmp.Message.{decode_get_request, encode_get_response}

abbrev pub oid_sys_descr : List ℕ
oid_sys_descr = 1 ∷ 3 ∷ 6 ∷ 1 ∷ 2 ∷ 1 ∷ 1 ∷ 1 ∷ 0 ∷ []

abbrev pub oid_sys_uptime : List ℕ
oid_sys_uptime = 1 ∷ 3 ∷ 6 ∷ 1 ∷ 2 ∷ 1 ∷ 1 ∷ 3 ∷ 0 ∷ []

abbrev pub oid_sys_contact : List ℕ
oid_sys_contact = 1 ∷ 3 ∷ 6 ∷ 1 ∷ 2 ∷ 1 ∷ 1 ∷ 4 ∷ 0 ∷ []

abbrev pub oid_sys_name : List ℕ
oid_sys_name = 1 ∷ 3 ∷ 6 ∷ 1 ∷ 2 ∷ 1 ∷ 1 ∷ 5 ∷ 0 ∷ []

abbrev pub oid_mstp_frames_sent : List ℕ
oid_mstp_frames_sent = 1 ∷ 3 ∷ 6 ∷ 1 ∷ 4 ∷ 1 ∷ 99999 ∷ 1 ∷ 1 ∷ []

abbrev pub oid_mstp_frames_recv : List ℕ
oid_mstp_frames_recv = 1 ∷ 3 ∷ 6 ∷ 1 ∷ 4 ∷ 1 ∷ 99999 ∷ 1 ∷ 2 ∷ []

abbrev pub oid_mstp_token_losses : List ℕ
oid_mstp_token_losses = 1 ∷ 3 ∷ 6 ∷ 1 ∷ 4 ∷ 1 ∷ 99999 ∷ 1 ∷ 3 ∷ []

abbrev pub oid_ipc_drop_count : List ℕ
oid_ipc_drop_count = 1 ∷ 3 ∷ 6 ∷ 1 ∷ 4 ∷ 1 ∷ 99999 ∷ 1 ∷ 4 ∷ []

abbrev pub oid_bacnet_devices_discovered : List ℕ
oid_bacnet_devices_discovered = 1 ∷ 3 ∷ 6 ∷ 1 ∷ 4 ∷ 1 ∷ 99999 ∷ 1 ∷ 5 ∷ []

abbrev pub oid_table : List (List ℕ)
oid_table =
    oid_sys_descr ∷ oid_sys_uptime ∷ oid_sys_contact ∷ oid_sys_name ∷ oid_mstp_frames_sent
    ∷ oid_mstp_frames_recv ∷ oid_mstp_token_losses ∷ oid_ipc_drop_count
    ∷ oid_bacnet_devices_discovered ∷ []

abbrev pub error_no_error : ℕ
error_no_error = 0

abbrev pub error_no_such_name : ℕ
error_no_such_name = 2

-- The bytes of "public"
abbrev pub agent_community : List ℕ
agent_community = 112 ∷ 117 ∷ 98 ∷ 108 ∷ 105 ∷ 99 ∷ []

-- The loop over the sub-identifiers that both have, and then the lengths.
unfoldable pub oid_cmp : List ℕ → List ℕ → Ordering
oid_cmp [] [] = Ordering.eq
oid_cmp [] (y ∷ ys) = Ordering.lt
oid_cmp (x ∷ xs) [] = Ordering.gt
oid_cmp (x ∷ xs) (y ∷ ys) =
    let rest = oid_cmp xs ys in
    elim (compare x y) [
      | Ordering.lt ↦ Ordering.lt
      | Ordering.eq ↦ rest
      | Ordering.gt ↦ Ordering.gt
    ]

unfoldable pub is_greater : List ℕ → List ℕ → Bool
unfolding oid_cmp
is_greater a b = elim (oid_cmp a b) [ Ordering.gt ↦ true | _ ↦ false ]

-- The first entry of the table that is greater.
unfoldable pub first_greater : List (List ℕ) → List ℕ → Option (List ℕ)
unfolding is_greater
first_greater [] oid = none
first_greater (t ∷ table) oid =
    let rest = first_greater table oid in if is_greater t oid then some t else rest

unfoldable pub next_oid : List ℕ → Option (List ℕ)
unfolding first_greater
next_oid oid = first_greater oid_table oid

-- What the agent reads while it answers: the milliseconds since the start, the hostname of the
-- configuration if there is one, the counters, and the identifiers in the device table.
pub record Readings : Type 0 where
  pub firmware_version : List ℕ
  pub now_ms : ℕ
  pub hostname : Option (List ℕ)
  pub mstp_frames_sent : ℕ
  pub mstp_frames_recv : ℕ
  pub mstp_token_losses : ℕ
  pub ipc_drop_count : ℕ
  pub device_ids : List ℕ

abbrev pub description_start : List ℕ
description_start =
    66 ∷ 65 ∷ 67 ∷ 110 ∷ 101 ∷ 116 ∷ 32 ∷ 66 ∷ 114 ∷ 105 ∷ 100 ∷ 103 ∷ 101 ∷ 32 ∷ 118 ∷ []

abbrev pub description_end : List ℕ
description_end = 32 ∷ 40 ∷ 73 ∷ 99 ∷ 111 ∷ 109 ∷ 98 ∷ 32 ∷ 80 ∷ 108 ∷ 97 ∷ 99 ∷ 101 ∷ 41 ∷ []

abbrev pub contact : List ℕ
contact = 73 ∷ 99 ∷ 111 ∷ 109 ∷ 98 ∷ 32 ∷ 80 ∷ 108 ∷ 97 ∷ 99 ∷ 101 ∷ []

abbrev pub default_hostname : List ℕ
default_hostname = 98 ∷ 97 ∷ 99 ∷ 110 ∷ 101 ∷ 116 ∷ 45 ∷ 98 ∷ 114 ∷ 105 ∷ 100 ∷ 103 ∷ 101 ∷ []

abbrev pub hostname_of : Option (List ℕ) → List ℕ
hostname_of none = default_hostname
hostname_of (some name) = name

abbrev pub count_devices : List ℕ → ℕ
count_devices [] = 0
count_devices (id ∷ ids) = let rest = count_devices ids in if id == 0 then rest else rest + 1

-- The value of an OID. What a `Vec<u8, 64>` has no room for is left out.
unfoldable pub value_of : Readings → List ℕ → Option SnmpValue
value_of r oid =
    if bytes_eq oid oid_sys_descr
    then some
        (octet_string (take 64 (description_start ++ (r.firmware_version ++ description_end))))
    else if bytes_eq oid oid_sys_uptime
    then some (time_ticks (r.now_ms / 10 % 2 ^ 32))
    else if bytes_eq oid oid_sys_contact
    then some (octet_string contact)
    else if bytes_eq oid oid_sys_name
    then some (octet_string (take 64 (hostname_of r.hostname)))
    else if bytes_eq oid oid_mstp_frames_sent
    then some (counter32 r.mstp_frames_sent)
    else if bytes_eq oid oid_mstp_frames_recv
    then some (counter32 r.mstp_frames_recv)
    else if bytes_eq oid oid_mstp_token_losses
    then some (counter32 r.mstp_token_losses)
    else if bytes_eq oid oid_ipc_drop_count
    then some (counter32 r.ipc_drop_count)
    else if bytes_eq oid oid_bacnet_devices_discovered
    then some (gauge32 (count_devices r.device_ids % 2 ^ 32))
    else none

abbrev pub bind_oid : List ℕ → Option SnmpValue → Option VarBind
bind_oid oid none = none
bind_oid oid (some value) = some (record { oid = take 16 oid; value = value })

unfoldable pub resolve_oid : Readings → List ℕ → Option VarBind
unfolding value_of
resolve_oid r oid = bind_oid oid (value_of r oid)

-- The OID to look up for a requested one.
abbrev pub lookup_oid : ℕ → List ℕ → Option (List ℕ)
lookup_oid pdu_type oid = if pdu_type == tag_get_next_request then next_oid oid else some oid

abbrev pub resolve_found : Readings → Option (List ℕ) → Option VarBind
resolve_found r none = none
resolve_found r (some oid) = resolve_oid r oid

abbrev pub push_found : Option VarBind → List VarBind → List VarBind
push_found none bindings = bindings
push_found (some vb) bindings = if ltb (length bindings) 8 then bindings ++ (vb ∷ []) else bindings

unfoldable pub build_bindings : Readings → List (List ℕ) → ℕ → List VarBind → List VarBind
unfolding next_oid resolve_oid
build_bindings r [] pdu_type bindings = bindings
build_bindings r (oid ∷ oids) pdu_type bindings =
    build_bindings r oids pdu_type (push_found (resolve_found r (lookup_oid pdu_type oid)) bindings)

-- The index, from 1 on, of the first request whose binding is not there.
unfoldable pub first_missing : ℕ → List (List ℕ) → List VarBind → ℕ
first_missing i [] bindings = 1
first_missing i (oid ∷ oids) [] = i + 1
first_missing i (oid ∷ oids) (vb ∷ bindings) =
    let rest = first_missing (i + 1) oids bindings in if bytes_eq vb.oid oid then rest else i + 1

unfoldable pub error_of : List (List ℕ) → List VarBind → ℕ × ℕ
unfolding first_missing
error_of oids bindings =
    if ltb (length bindings) (length oids)
    then (error_no_such_name, first_missing 0 oids bindings)
    else (error_no_error, 0)

-- One round of the task: a packet, and the response that is sent, if there is one.
unfoldable pub respond :
    Readings → List ℕ → Result DecodeError SnmpRequest → Option (Result EncodeError (List ℕ × ℕ))
unfolding build_bindings error_of encode_get_response
respond r resp_buf (err e) = none
respond r resp_buf panic = some panic
respond r resp_buf stuck = some stuck
respond r resp_buf (ok req) =
    if not (bytes_eq req.community agent_community)
    then none
    else (let bindings = build_bindings r req.oids req.pdu_type [] in
        let (error_status, error_index) = error_of req.oids bindings in
        some (
          encode_get_response resp_buf req.request_id agent_community error_status error_index
            bindings))

unfoldable pub snmp_round : Readings → List ℕ → List ℕ → Option (Result EncodeError (List ℕ × ℕ))
unfolding respond decode_get_request
snmp_round r resp_buf pkt = respond r resp_buf (decode_get_request pkt)
