-- ===== src/Lib.antt =====
-- Verification of meshtastic-zephyr, a Meshtastic node as a Zephyr subsystem.
--
-- The program. A LoRa frame that the radio receives goes to the router
-- (src/meshtastic_router.c), which logs its air time (src/meshtastic_airtime.c), drops packets seen
-- before, decodes the frame with the keys of the channel table (src/meshtastic_packet.c,
-- src/meshtastic_channels.c), hands the packet to the application, the phone transports
-- (src/meshtastic_phoneapi.c), MQTT, the acknowledgements (src/meshtastic_routing.c,
-- src/meshtastic_reliable.c) and the modules, of which the node database (src/meshtastic_nodedb.c) is
-- one, and sends it on to other nodes. Frames to send go through one queue
-- (src/meshtastic_outbound.c). A phone gets its messages from a ring of frames and, at first, from the
-- configuration handshake (src/meshtastic_phoneapi_config.c); over a UART they are framed by
-- src/meshtastic_serial.c.
--
-- The files. Prelude and its children hold what all share: tests, lists measured by native numbers,
-- bytes, rings read as lists, C strings, results with the C error codes. Packet, Messages and Configs
-- hold the data types of include/zephyr/meshtastic/meshtastic.h and of the protobuf messages. Wire is the
-- frame header of src/meshtastic_packet.h. Each other file models the C file that its first line names,
-- with a record for its static state and a function for each C function, under the C name without its
-- `meshtastic_` prefix and component; its children hold further functions, proofs and, in Tests,
-- examples. Channels and Channels.Policy model src/meshtastic_channels.c, Codec and Codec.Mesh
-- src/meshtastic_packet.c, DupCache, Router and Router.Inject src/meshtastic_router.c, Core and
-- Core.MeshSend src/meshtastic.c and the sending of a message, Radio src/meshtastic_radio.c, Modules
-- src/meshtastic_modules.c and src/meshtastic_message.c. ConfigStore is src/meshtastic_config_store.c with
-- the set callback of src/meshtastic_settings.c: Settings has the keys, Seed, Apply and Setters the rest.
-- NodeInfo is src/meshtastic_nodeinfo.c, and Phone.ToRadio what a phone sends.
--
-- Calls between parts. The router takes the answers of the other parts as a record `Router.Deps`, and
-- lists the calls that it makes as `Router.Action`s in their order. The codec takes PSA Crypto and
-- nanopb as `Codec.Platform`, with what it relies on in `Codec.Decrypt.IsPlatform`, and NodeDb's
-- answers as `Codec.Peers`. The handshake takes the stores that it reads as `Phone.Handshake.Source`,
-- the core's sender the radio's answer and the outcome of the transmission in `Core.Env`, with how they
-- go together in `Core.Send.IsRadio`, and the store nanopb as `ConfigStore.Library`, with what it relies on
-- in `ConfigStore.Restore.IsLibrary`: messages without data under a `has_` flag that is false are given back.
-- Functions under a lock are one step, and so is the handling of a phone's message, which takes the lock
-- several times and waits for the radio in between. Random numbers, the time and allocated identifiers are
-- arguments. A NULL pointer is `none`, a negative return code an `Errno`, and unsigned arithmetic that
-- can wrap has its `% 2 ^ w`.
--
-- Bounds and fuel. `Serial.rx_work` has one unit of fuel more than there are bytes, and each turn takes
-- a byte. `Serial.Transmit.tx_work` has a unit for each waiting frame and each byte of the ring, and one
-- more: outside the handshake, each turn that goes on takes a frame, and in it a turn fills four bytes
-- of the ring or more. `Channels.get_key_fuel` counts the calls of `channel_get_key` by itself: a result of `none`
-- at the top level stands for a call that does not return. `Phone.Handshake.Popped.pop_all` is asked for 41
-- frames or more, one more than the longest handshake has messages. `Radio.send_loop` is recursion on
-- the retries left. All other loops are recursion on the array or on the number of slots.
--
-- Not modelled: the MQTT bridge, BLE, the shell, sensors and GNSS, start-up, the announcing thread, the set-up of the UART,
-- what other threads do during one run of the UART's transmit work, the delayed save of the settings,
-- and NodeDB's copying of entries field by field. The library that the protobuf code is generated by, PSA
-- Crypto and Zephyr's kernel are outside the repository. Of the configuration messages the members that
-- no function reads or writes one by one are kept together as `content`. Log messages are left out.
pub mod Prelude
pub mod Packet
pub mod Wire
pub mod Messages
pub mod Phone
pub mod Serial
pub mod Channels
pub mod Configs
pub mod ConfigStore
pub mod Reliable
pub mod Airtime
pub mod Core
pub mod DupCache
pub mod NodeDb
pub mod Outbound
pub mod Routing
pub mod Codec
pub mod Router
pub mod Radio
pub mod Modules
pub mod NodeInfo
