-- ===== src/ConfigStore/Sample/Modules.antt =====
-- A plain encoding of `meshtastic_ModuleConfig`.
use meshtastic_zephyr.Prelude.{
  ℕ, ◌==◌, ◌≡◌, refl, List, [], ◌∷◌, ◌++◌, Option, none, some, if◌then◌else◌, length, take, drop,
  take-append_self, drop-append_self,
}
use meshtastic_zephyr.Configs.{ModuleConfig, MqttConfig}
use meshtastic_zephyr.ConfigStore.Sample.Messages.{bit, bit_back}

-- A text with its length before it, and what follows it.
unfoldable pub text_of : List ℕ → List ℕ
text_of [] = []
text_of (n ∷ xs) = take n xs

unfoldable pub rest_of : List ℕ → List ℕ
rest_of [] = []
rest_of (n ∷ xs) = drop n xs

unfoldable pub texted : List ℕ → List ℕ → List ℕ
texted s more = length s ∷ (s ++ more)

text_of-texted : (s more : List ℕ) → text_of (texted s more) ≡ s
unfolding text_of texted
text_of-texted s more = take-append_self s more

rest_of-texted : (s more : List ℕ) → rest_of (texted s more) ≡ more
unfolding rest_of texted
rest_of-texted s more = drop-append_self s more

abbrev mqtt_texts : MqttConfig → List ℕ
mqtt_texts c = texted c.address (texted c.username (texted c.password (texted c.root c.content)))

abbrev mqtt_bytes : MqttConfig → List ℕ
mqtt_bytes c =
    bit c.enabled
    ∷ bit c.encryption_enabled
    ∷ bit c.map_reporting_enabled
    ∷ bit c.has_map_report_settings
    ∷ bit c.should_report_location
    ∷ c.publish_interval_secs
    ∷ c.position_precision
    ∷ mqtt_texts c

abbrev mqtt_from : List ℕ → Option ModuleConfig
mqtt_from (enabled ∷ encryption ∷ report ∷ has ∷ location ∷ interval ∷ precision ∷ texts) = some (
    ModuleConfig.mqtt (record {
      enabled = enabled == 1;
      address = text_of texts;
      username = text_of (rest_of texts);
      password = text_of (rest_of (rest_of texts));
      encryption_enabled = encryption == 1;
      root = text_of (rest_of (rest_of (rest_of texts)));
      map_reporting_enabled = report == 1;
      has_map_report_settings = has == 1;
      publish_interval_secs = interval;
      position_precision = precision;
      should_report_location = location == 1;
      content = rest_of (rest_of (rest_of (rest_of texts)));
    }))
mqtt_from _ = none

abbrev pub module_bytes : ModuleConfig → List ℕ
module_bytes (ModuleConfig.mqtt c) = 1 ∷ mqtt_bytes c
module_bytes (ModuleConfig.serial c) = 2 ∷ c
module_bytes (ModuleConfig.external_notification c) = 3 ∷ c
module_bytes (ModuleConfig.store_forward c) = 4 ∷ c
module_bytes (ModuleConfig.range_test c) = 5 ∷ c
module_bytes (ModuleConfig.telemetry c) = 6 ∷ c
module_bytes (ModuleConfig.canned_message c) = 7 ∷ c
module_bytes (ModuleConfig.audio c) = 8 ∷ c
module_bytes (ModuleConfig.remote_hardware c) = 9 ∷ c
module_bytes (ModuleConfig.neighbor_info c) = 10 ∷ c
module_bytes (ModuleConfig.ambient_lighting c) = 11 ∷ c
module_bytes (ModuleConfig.detection_sensor c) = 12 ∷ c
module_bytes (ModuleConfig.paxcounter c) = 13 ∷ c
module_bytes (ModuleConfig.statusmessage c) = 14 ∷ c
module_bytes (ModuleConfig.traffic_management c) = 15 ∷ c
module_bytes (ModuleConfig.tak c) = 16 ∷ c
module_bytes ModuleConfig.unset_module = 0 ∷ []

abbrev pub module_from : List ℕ → Option ModuleConfig
module_from [] = none
module_from (t ∷ xs) =
    if t == 1
    then mqtt_from xs
    else if t == 2
    then some (ModuleConfig.serial xs)
    else if t == 3
    then some (ModuleConfig.external_notification xs)
    else if t == 4
    then some (ModuleConfig.store_forward xs)
    else if t == 5
    then some (ModuleConfig.range_test xs)
    else if t == 6
    then some (ModuleConfig.telemetry xs)
    else if t == 7
    then some (ModuleConfig.canned_message xs)
    else if t == 8
    then some (ModuleConfig.audio xs)
    else if t == 9
    then some (ModuleConfig.remote_hardware xs)
    else if t == 10
    then some (ModuleConfig.neighbor_info xs)
    else if t == 11
    then some (ModuleConfig.ambient_lighting xs)
    else if t == 12
    then some (ModuleConfig.detection_sensor xs)
    else if t == 13
    then some (ModuleConfig.paxcounter xs)
    else if t == 14
    then some (ModuleConfig.statusmessage xs)
    else if t == 15
    then some (ModuleConfig.traffic_management xs)
    else if t == 16
    then some (ModuleConfig.tak xs)
    else some ModuleConfig.unset_module

mqtt_back : (c : MqttConfig) → mqtt_from (mqtt_bytes c) ≡ some (ModuleConfig.mqtt c)
mqtt_back c =
    rw
      (
        bit_back c.enabled,
        bit_back c.encryption_enabled,
        bit_back c.map_reporting_enabled,
        bit_back c.has_map_report_settings,
        bit_back c.should_report_location,
      )
      (simp (text_of-texted, rest_of-texted))

pub module_back : (m : ModuleConfig) → module_from (module_bytes m) ≡ some m
module_back (ModuleConfig.mqtt c) = mqtt_back c
module_back (ModuleConfig.serial c) = refl
module_back (ModuleConfig.external_notification c) = refl
module_back (ModuleConfig.store_forward c) = refl
module_back (ModuleConfig.range_test c) = refl
module_back (ModuleConfig.telemetry c) = refl
module_back (ModuleConfig.canned_message c) = refl
module_back (ModuleConfig.audio c) = refl
module_back (ModuleConfig.remote_hardware c) = refl
module_back (ModuleConfig.neighbor_info c) = refl
module_back (ModuleConfig.ambient_lighting c) = refl
module_back (ModuleConfig.detection_sensor c) = refl
module_back (ModuleConfig.paxcounter c) = refl
module_back (ModuleConfig.statusmessage c) = refl
module_back (ModuleConfig.traffic_management c) = refl
module_back (ModuleConfig.tak c) = refl
module_back ModuleConfig.unset_module = refl
