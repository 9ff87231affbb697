-- ===== src/Tests/Routing.antt =====
-- The router of firmware/src/bacnet_router.rs at a concrete answer and configuration.
use micro_bacnet_bridge.Base.{replicate}
use micro_bacnet_bridge.Base.{◌≡◌, refl, [], ◌∷◌, none, some, get_or, set}
use micro_bacnet_bridge.Bacnet.{PropertyId, unsigned_int}
use micro_bacnet_bridge.Apdu.Types.{ReadPropertyAnswer}
use micro_bacnet_bridge.Bridge.{BridgeState, new_state, DeviceEntry, new_device}
use micro_bacnet_bridge.Pipeline.{processed, map_states}
use micro_bacnet_bridge.Config.{BridgeConfig, Convertor, PointRule, default_bridge_config}
use micro_bacnet_bridge.Router.{RouterState, known_devices}
use micro_bacnet_bridge.Router.Rules.{First}
use micro_bacnet_bridge.Ipc.{BacnetPdu, new_pdu, new_ring}
use micro_bacnet_bridge.Tests.Display.{whole, fan_labels, fan}

-- Device 7 at the address 12 on the bus.
abbrev one_device : BridgeState
one_device = record new_state {
  devices = set new_state.devices 0 (new_device 7 12 []);
  device_count = 1;
}

abbrev fan_convertor : Convertor
fan_convertor = record { id = 102 ∷ []; name = []; processors = map_states fan_labels ∷ [] }

abbrev fan_rule : PointRule
fan_rule = record {
  device_id = 7;
  object_type = 2;
  object_instance = 3;
  mode = processed;
  convertor_id = 102 ∷ [];
}

abbrev fan_config : BridgeConfig
fan_config = record default_bridge_config {
  convertors = fan_convertor ∷ [];
  points = fan_rule ∷ [];
}

abbrev fan_answer : ReadPropertyAnswer
fan_answer = record {
  object_id = fan;
  property_id = PropertyId.present_value;
  array_index = none;
  value = unsigned_int 3;
}

abbrev fan_state : RouterState
fan_state = record {
  tables = one_device;
  config = some fan_config;
  mstp_to_ip = new_ring 8;
  ip_to_mstp = new_ring 8;
  invoke_id = 1;
}

abbrev bus_pdu : BacnetPdu
bus_pdu = record new_pdu { source_mac = 12 ∷ replicate 6 0; source_mac_len = 1 }

abbrev fan_sender :
    First
      (λ (o : DeviceEntry). o.mac ≡ get_or bus_pdu.source_mac 0 0)
      (known_devices one_device)
      (new_device 7 12 [])
unfolding new_state new_device
fan_sender = record { before = []; after = []; whole = refl; others = tt; this = refl }
