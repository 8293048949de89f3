-- ===== src/Router/Inject/Again.antt =====
-- A message that has come in over MQTT is known when it comes again, by MQTT or by radio.
use meshtastic_zephyr.Prelude.{
  ℕ, ◌<◌, ◌≡◌, refl, sym, ap, ◌∙◌, Bool, true, false, List, [], map, Option, none, some, Result, ok,
  err, arith, length, Option-cases, Bool-cases, inl, inr,
}
use meshtastic_zephyr.Packet.{Packet, ℤ, max_payload_len}
use meshtastic_zephyr.Messages.{MeshPacket}
use meshtastic_zephyr.Wire.{Header, parse_header}
use meshtastic_zephyr.DupCache.{DupEntry, DupCache, dup_check, dup_add}
use meshtastic_zephyr.DupCache.Memory.{IsRing, add_all, dup_check-recent}
use meshtastic_zephyr.Codec.Mesh.{mesh_pb_try_decode, mesh_pb_to_packet}
use meshtastic_zephyr.Core.{Env, Sent}
use meshtastic_zephyr.Router.{Deps, process_lora_rx}
use meshtastic_zephyr.Router.Receive.{
  Reception, process_all, process_all-dup, IsQuiet, duplicate-IsQuiet,
}
use meshtastic_zephyr.Router.Inject.{
  Bridge, reception, Injected, Call, core_call, is_local, is_relayed, relay, deliver, finish,
  inject_new, known, inject,
}

-- Where a call leaves something, it leaves the duplicate cache `dup`.
abbrev LeavesDup : DupCache → Option Injected → Type 0
LeavesDup dup r = (i : Injected) → r ≡ some i → i.bridge.dup ≡ dup

leaves : (dup : DupCache) (i : Injected) → i.bridge.dup ≡ dup → LeavesDup dup (some i)
leaves dup i same j h = ap (λ (x : Injected). x.bridge.dup) (sym (injective i j h)) ∙ same
  where
    injective : (a b : Injected) → some a ≡ some b → a ≡ b
    injective a b e = cc

deliver-dup :
    (e : Env) (d : Deps) (work : MeshPacket) (b : Bridge) (calls : List Call)
    → LeavesDup b.dup (deliver e d work b calls)
unfolding deliver
deliver-dup e d work b calls = by_plain (mesh_pb_try_decode e.platform b.core.channels work) refl
  where
    by_packet :
        (plain : MeshPacket)
        → mesh_pb_try_decode e.platform b.core.channels work ≡ some (ok plain)
        → (r : Option (Result Packet))
        → mesh_pb_to_packet e.platform b.core.channels (some plain) max_payload_len ≡ r
        → LeavesDup b.dup (deliver e d work b calls)
    by_packet plain p none q = rw (p, q, deliver) (λ i h. cc)
    by_packet plain p (some (err error)) q = rw (p, q, deliver) (leaves b.dup _ refl)
    by_packet plain p (some (ok packet)) q = rw (p, q, deliver) (leaves b.dup _ refl)

    by_plain :
        (r : Option (Result MeshPacket))
        → mesh_pb_try_decode e.platform b.core.channels work ≡ r
        → LeavesDup b.dup (deliver e d work b calls)
    by_plain none p = rw (p, deliver) (λ i h. cc)
    by_plain (some (err error)) p = rw (p, deliver) (leaves b.dup _ refl)
    by_plain (some (ok plain)) p =
        by_packet plain p
          (mesh_pb_to_packet e.platform b.core.channels (some plain) max_payload_len) refl

finish-dup :
    (e : Env) (d : Deps) (work : MeshPacket) (here : Bool) (b : Bridge) (calls : List Call)
    → LeavesDup b.dup (finish e d work here b calls)
unfolding finish
finish-dup e d work true b calls = deliver-dup e d work b calls
finish-dup e d work false b calls = leaves b.dup _ refl

inject_new-dup :
    (e : Env) (d : Deps) (work : MeshPacket) (b : Bridge) → LeavesDup b.dup (inject_new e d work b)
unfolding inject_new
inject_new-dup e d work b = elim (Bool-cases (is_relayed b.core.node_id work)) [
  | inl relayed ↦ by_relay relayed (relay e work b.core) refl
  | inr kept ↦ rw (kept, inject_new) (finish-dup e d work (is_local b.core.node_id work) b [])
]
  where
    by_relay :
        is_relayed b.core.node_id work ≡ true
        → (r : Option Sent) → relay e work b.core ≡ r
        → LeavesDup b.dup (inject_new e d work b)
    by_relay relayed none q = rw (relayed, q, inject_new) (λ i h. cc)
    by_relay relayed (some sent) q = elim (Option-cases sent.ret) [
      | inl done ↦
          rw (relayed, q, done, inject_new)
            (finish-dup e d work (is_local b.core.node_id work) (record b { core = sent.core })
              (map core_call sent.actions))
      | inr (error, failed) ↦ rw (relayed, q, failed, inject_new) (leaves b.dup _ refl)
    ]

abbrev pub key_of : MeshPacket → DupEntry
key_of mesh = record { src = mesh.from; id = mesh.id }

-- A message that was not known is known afterwards, whatever has become of it.
inject-adds :
    (e : Env) (d : Deps) (mesh : MeshPacket) (b : Bridge) (r : Injected)
    → b.core.initialized ≡ true
    → dup_check b.dup mesh.from mesh.id ≡ false
    → inject e d (some mesh) b ≡ some r
    → r.bridge.dup ≡ dup_add d.dup_cache_size (key_of mesh) b.dup
unfolding inject
inject-adds e d mesh b r ready fresh done = inject_new-dup e d _ _ r (rw (ready, fresh) at done)

known_again :
    (e : Env) (d : Deps) (mesh : MeshPacket) (b : Bridge)
    → b.core.initialized ≡ true
    → dup_check b.dup mesh.from mesh.id ≡ true
    → inject e d (some mesh) b ≡ some (known b)
unfolding inject
known_again e d mesh b ready again = ground (arith, ready, again)

-- After a message has come in over MQTT, whether or not it could be sent on or delivered, and fewer
-- further frames than the duplicate cache has entries have come in by radio, a frame of the same packet
-- that is heard is handled as a duplicate, neither delivered nor sent on; and the same message over
-- MQTT is refused with EALREADY, without any call.
pub inject_again :
    (e : Env) (d : Deps) (mesh : MeshPacket) (b b' : Bridge) (r : Injected) (rs : List Reception)
    (buf : List ℕ) (hdr : Header) (rssi snr : ℤ)
    → IsRing d.dup_cache_size b.dup
    → b.core.initialized ≡ true
    → dup_check b.dup mesh.from mesh.id ≡ false
    → inject e d (some mesh) b ≡ some r
    → length rs < d.dup_cache_size
    → parse_header buf ≡ some hdr
    → (hdr.src ≡ mesh.from) × (hdr.id ≡ mesh.id)
    → (b'.dup ≡ (process_all d rs (reception r.bridge)).dup) × (b'.core.initialized ≡ true)
    → IsQuiet d buf
        (process_lora_rx d (some buf) rssi snr (process_all d rs (reception r.bridge))).1
      × (inject e d (some mesh) b' ≡ some (known b'))
inject_again e d mesh b b' r rs buf hdr rssi snr ring ready fresh done fewer parsed same later =
    let (es, few, dups) = process_all-dup d rs (reception r.bridge) in
    let added = inject-adds e d mesh b r ready fresh done in
    let found_again = dup_check-recent d.dup_cache_size (key_of mesh) es b.dup ring (omega arith) in
    let heard : dup_check (process_all d rs (reception r.bridge)).dup mesh.from mesh.id ≡ true =
      ap (λ c. dup_check c mesh.from mesh.id) (dups ∙ ap (add_all d.dup_cache_size es) added)
      ∙ found_again in
    (
      duplicate-IsQuiet d buf hdr rssi snr (process_all d rs (reception r.bridge)) parsed
          (rw (same.0, same.1) heard),
      known_again e d mesh b' later.1 (ap (λ c. dup_check c mesh.from mesh.id) later.0 ∙ heard),
    )
