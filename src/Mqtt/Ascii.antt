-- ===== src/Mqtt/Ascii.antt =====
-- The literal texts of bridge-core/src/mqtt.rs, as their bytes.
use micro_bacnet_bridge.Base.{ℕ, List, [], ◌∷◌}

abbrev pub binary_input : List ℕ
binary_input = 98 ∷ 105 ∷ 110 ∷ 97 ∷ 114 ∷ 121 ∷ 45 ∷ 105 ∷ 110 ∷ 112 ∷ 117 ∷ 116 ∷ []

abbrev pub binary_output : List ℕ
binary_output = 98 ∷ 105 ∷ 110 ∷ 97 ∷ 114 ∷ 121 ∷ 45 ∷ 111 ∷ 117 ∷ 116 ∷ 112 ∷ 117 ∷ 116 ∷ []

abbrev pub binary_value : List ℕ
binary_value = 98 ∷ 105 ∷ 110 ∷ 97 ∷ 114 ∷ 121 ∷ 45 ∷ 118 ∷ 97 ∷ 108 ∷ 117 ∷ 101 ∷ []

abbrev pub binary_sensor : List ℕ
binary_sensor = 98 ∷ 105 ∷ 110 ∷ 97 ∷ 114 ∷ 121 ∷ 95 ∷ 115 ∷ 101 ∷ 110 ∷ 115 ∷ 111 ∷ 114 ∷ []

abbrev pub sensor : List ℕ
sensor = 115 ∷ 101 ∷ 110 ∷ 115 ∷ 111 ∷ 114 ∷ []

abbrev pub slash : List ℕ
slash = 47 ∷ []

abbrev pub underscore : List ℕ
underscore = 95 ∷ []

abbrev pub config : List ℕ
config = 47 ∷ 99 ∷ 111 ∷ 110 ∷ 102 ∷ 105 ∷ 103 ∷ []

abbrev pub bacnet : List ℕ
bacnet = 98 ∷ 97 ∷ 99 ∷ 110 ∷ 101 ∷ 116 ∷ 95 ∷ []

abbrev pub name : List ℕ
name = 123 ∷ 34 ∷ 110 ∷ 97 ∷ 109 ∷ 101 ∷ 34 ∷ 58 ∷ 34 ∷ []

abbrev pub unique_id_key : List ℕ
unique_id_key =
    34 ∷ 44 ∷ 34 ∷ 117 ∷ 110 ∷ 105 ∷ 113 ∷ 117 ∷ 101 ∷ 95 ∷ 105 ∷ 100 ∷ 34 ∷ 58 ∷ 34 ∷ []

abbrev pub state_topic_key : List ℕ
state_topic_key =
    34 ∷ 44 ∷ 34 ∷ 115 ∷ 116 ∷ 97 ∷ 116 ∷ 101 ∷ 95 ∷ 116 ∷ 111 ∷ 112 ∷ 105 ∷ 99 ∷ 34 ∷ 58 ∷ 34 ∷ []

abbrev pub quote : List ℕ
quote = 34 ∷ []

abbrev pub unit_key : List ℕ
unit_key =
    44 ∷ 34 ∷ 117 ∷ 110 ∷ 105 ∷ 116 ∷ 95 ∷ 111 ∷ 102 ∷ 95 ∷ 109 ∷ 101 ∷ 97 ∷ 115 ∷ 117 ∷ 114 ∷ 101
    ∷ 109 ∷ 101 ∷ 110 ∷ 116 ∷ 34 ∷ 58 ∷ 34 ∷ []

abbrev pub device_key : List ℕ
device_key =
    44 ∷ 34 ∷ 100 ∷ 101 ∷ 118 ∷ 105 ∷ 99 ∷ 101 ∷ 34 ∷ 58 ∷ 123 ∷ 34 ∷ 105 ∷ 100 ∷ 101 ∷ 110 ∷ 116
    ∷ 105 ∷ 102 ∷ 105 ∷ 101 ∷ 114 ∷ 115 ∷ 34 ∷ 58 ∷ 91 ∷ 34 ∷ []

abbrev pub tail : List ℕ
tail =
    34 ∷ 93 ∷ 44 ∷ 34 ∷ 110 ∷ 97 ∷ 109 ∷ 101 ∷ 34 ∷ 58 ∷ 34 ∷ 66 ∷ 65 ∷ 67 ∷ 110 ∷ 101 ∷ 116 ∷ 32
    ∷ 66 ∷ 114 ∷ 105 ∷ 100 ∷ 103 ∷ 101 ∷ 34 ∷ 44 ∷ 34 ∷ 109 ∷ 97 ∷ 110 ∷ 117 ∷ 102 ∷ 97 ∷ 99 ∷ 116
    ∷ 117 ∷ 114 ∷ 101 ∷ 114 ∷ 34 ∷ 58 ∷ 34 ∷ 73 ∷ 99 ∷ 111 ∷ 109 ∷ 98 ∷ 32 ∷ 80 ∷ 108 ∷ 97 ∷ 99
    ∷ 101 ∷ 34 ∷ 125 ∷ 125 ∷ []
