-- ===== src/Kits.antt =====
-- app/services/kits.py, and `applies_to` of app/services/slide_vision.py: the hardware kit that a
-- lesson is taught with. `advanced_from` is the setting `year2_advanced_from_grade`.
use edtech_back.Base.{
  ℕ, ◌≡◌, refl, Bool, true, false, Option, none, some, List, [], ◌∷◌, ◌++◌, pos, int_lt, Text,
  codes, nonempty, map, ◌==◌, if◌then◌else◌,
}
use edtech_back.Model.{Lesson}

-- `Kit`
pub record Kit : Type 0 where
  pub name : Text
  pub model : Text
  pub contents : List Text
  pub excludes : List Text
  pub wiring : Text

-- `HONEYCOMB`
abbrev pub honeycomb : Kit
honeycomb = record {
  name = codes "Keyestudio micro:bit Honeycomb Ultimate Starter Kit";
  model = codes "KS4011";
  contents =
      codes "micro:bit Main Board (included in this kit)"
      ∷ codes "micro:bit Expansion Board"
      ∷ codes "1W LED Module"
      ∷ codes "Digital LED Module"
      ∷ codes "5050 RGB Module"
      ∷ codes "Traffic Light Module"
      ∷ codes "Passive Buzzer"
      ∷ codes "Tactile Button Module"
      ∷ codes "Vibration Tilt Module"
      ∷ codes "Capacitive Touch Module"
      ∷ codes "Hall Magnetic Sensor"
      ∷ codes "PIR Motion Module"
      ∷ codes "Photoresistor"
      ∷ codes "Sound Sensor"
      ∷ codes "TEMT6000 Ambient Light Sensor"
      ∷ codes "Rotary Potentiometer Module"
      ∷ codes "PS2 Joystick Module"
      ∷ codes "Soil Humidity Sensor"
      ∷ codes "TCS34725FN Colour Sensor"
      ∷ codes "Black USB Cable"
      ∷ codes "Alligator Clip Cables (x10)"
      ∷ codes "2 x AA Battery Holder"
      ∷ [];
  excludes =
      codes "loose resistors of any value, including 220 ohm - the LED modules have theirs built in"
      ∷ codes "Dupont jumper wires of any kind - this kit connects with alligator clips"
      ∷ codes "a breadboard"
      ∷ [];
  wiring =
      codes
        "These are hexagonal plug-and-play modules. They are joined with the kit's alligator clip cables, or through the micro:bit Expansion Board - never with Dupont jumper wires, never on a breadboard, and nothing is soldered. Each module carries any resistor it needs on board.";
}

-- `SENSOR_45_IN_1`
abbrev pub sensor_45_in_1 : Kit
sensor_45_in_1 = record {
  name = codes "Keyestudio 45-in-1 Sensor Starter Kit for BBC micro:bit";
  model = codes "KS4010";
  contents =
      codes "micro:bit Sensor Shield V2 (every module plugs into this)"
      ∷ codes "Soil Humidity Sensor"
      ∷ codes "OLED Module"
      ∷ codes "Water Level Sensor"
      ∷ codes "Joystick Module"
      ∷ codes "Analog Alcohol Sensor"
      ∷ codes "Single Relay Module"
      ∷ codes "Analog Gas Sensor"
      ∷ codes "Ultrasonic Module"
      ∷ codes "Vibration Sensor"
      ∷ codes "Traffic Light Module"
      ∷ codes "Infrared Obstacle Detector Sensor"
      ∷ codes "Fan Module"
      ∷ codes "Flame Sensor"
      ∷ codes "Analog Sound Sensor"
      ∷ codes "Knock Sensor Module"
      ∷ codes "Digital IR Receiver Module"
      ∷ codes "Temperature and Humidity Sensor"
      ∷ codes "Ambient Light Sensor"
      ∷ codes "Photo Interrupter Module"
      ∷ codes "Capacitive Touch Sensor"
      ∷ codes "Digital Tilt Sensor"
      ∷ codes "Analog Rotation Sensor"
      ∷ codes "Steam Sensor"
      ∷ codes "Passive Buzzer Module"
      ∷ codes "Reed Switch Module"
      ∷ codes "Active Buzzer Module"
      ∷ codes "White LED Module"
      ∷ codes "PIR Motion Sensor"
      ∷ codes "Red LED Module"
      ∷ codes "Digital Push Button"
      ∷ codes "RGB LED Module"
      ∷ codes "18B20 Temperature Sensor (DS18B20)"
      ∷ codes "Analog Temperature Sensor"
      ∷ codes "LM35 Linear Temperature Sensor"
      ∷ codes "Hall Magnetic Sensor"
      ∷ codes "Photocell Sensor"
      ∷ codes "Line Tracking Sensor"
      ∷ codes "Ultraviolet Sensor"
      ∷ codes "Thin-film Pressure Sensor"
      ∷ codes "Magic Light Cup Sensor (x2)"
      ∷ codes "USB Cable"
      ∷ codes "3W LED Module"
      ∷ codes "40-pin FEMALE-to-FEMALE Dupont jumper wires"
      ∷ codes "Crash Sensor"
      ∷ codes "Display Module"
      ∷ codes "Micro Servo"
      ∷ codes "IR Remote Control"
      ∷ codes "6 x AA Battery Holder"
      ∷ [];
  excludes =
      codes "loose resistors of any value, including 220 ohm - the LED modules have theirs built in"
      ∷ codes "male-to-female or male-to-male jumper wires - the kit's wires are female-to-female"
      ∷ codes "alligator clip cables - those belong to the other kit"
      ∷ codes "a breadboard"
      ∷ codes "the micro:bit board itself, which is not part of this kit"
      ∷ [];
  wiring =
      codes
        "These are pre-built modules with 3-pin headers, not bare components. Each plugs into the micro:bit Sensor Shield V2 using the kit's female-to-female Dupont wires - never a breadboard, never alligator clips, and nothing is soldered. Each module carries any resistor it needs on board.";
}

-- `Kit.label`
abbrev pub label : Kit → Text
label kit = kit.name ++ (codes " (" ++ (kit.model ++ codes ")"))

-- `kit_for`
unfoldable pub kit_for : ℕ → Option Lesson → Option Kit
kit_for advanced_from none = none
kit_for advanced_from (some lesson) =
    let year = if lesson.year == 0 then 2 else lesson.year in
    if year == 1
    then some honeycomb
    else if int_lt lesson.grade (pos advanced_from)
    then some honeycomb
    else some sensor_45_in_1

-- `sep.join(texts)`
unfoldable pub join : Text → List Text → Text
join sep [] = []
join sep (t ∷ []) = t
join sep (t ∷ u ∷ ts) = t ++ (sep ++ join sep (u ∷ ts))

abbrev pub join_lines : List Text → Text
join_lines ts = join (10 ∷ []) ts

-- `_HEADER`
abbrev pub header : Kit → Text
header kit = join_lines (
    codes "CLASSROOM HARDWARE - the teacher works with this kit, and only this kit:"
    ∷ label kit
    ∷ codes ""
    ∷ codes
        "- It is a BBC micro:bit kit. Never assume an Arduino, a Raspberry Pi, or a generic breadboard-and-components set."
    ∷ codes
        "- Refer to the kit by name when it matters; give the model number only if the teacher asks which kit or needs to order a replacement."
    ∷ [])

-- `_UNKNOWN_CONTENTS`
abbrev pub unknown_contents : Text
unknown_contents = join_lines (
    codes
      "- You do NOT have this kit's parts list. Never state or imply what it contains or does not contain - no \"the kit includes...\", no \"your kit comes with...\", and never a quantity."
    ∷ codes
        "- When a part is needed, name the part and let the teacher check: \"you will need a 220 ohm resistor if your kit has one\" - never assert that it does."
    ∷ codes
        "- This kit connects its modules with its own leads and connectors, so do not reach for a breadboard, loose resistors or generic jumper wires unless the lesson slide shows them."
    ∷ [])

-- `_KNOWN_CONTENTS`
abbrev pub known_contents : Kit → Text
known_contents kit = join_lines (
    codes "- KIT CONTENTS, which is the complete list. Anything not on it is not in the kit:"
    ∷ join_lines (map (λ item. codes "  - " ++ item) kit.contents)
    ∷ codes
        "- Answer wiring and component questions using these parts only, and by their names above. If a question needs something absent from the list, say so plainly and offer the closest part that is on it."
    ∷ (codes "- HOW IT CONNECTS: " ++ kit.wiring)
    ∷ [])

-- `_EXCLUDES`
abbrev pub excluded : Kit → Text
excluded kit =
    (codes "- Confirmed NOT in this kit, whatever you may otherwise assume: "
      ++ (join (codes "; ") kit.excludes
          ++ codes ". Never offer these as if the teacher has them."))

unfoldable pub note_of : Kit → Text
note_of kit = join_lines (
    header kit
    ∷ (if nonempty kit.contents then known_contents kit else unknown_contents)
    ∷ (if nonempty kit.excludes then excluded kit ∷ [] else []))

-- `kit_note`
unfoldable pub kit_note : ℕ → Option Lesson → Text
kit_note advanced_from lesson = elim (kit_for advanced_from lesson) [
  | none ↦ []
  | some kit ↦ note_of kit
]

-- `applies_to` of the reading of slides
unfoldable pub applies_to : ℕ → Option Lesson → Bool
applies_to advanced_from none = false
applies_to advanced_from (some lesson) =
    let year = if lesson.year == 0 then 2 else lesson.year in
    if year == 1 then true else int_lt lesson.grade (pos advanced_from)

either-test :
    (a b : Bool) (x y : Kit)
    → (if a then some x else if b then some x else some y)
      ≡ some (if (if a then true else b) then x else y)
either-test true b x y = refl
either-test false true x y = refl
either-test false false x y = refl

-- The slides of a lesson are read as pictures exactly if it is taught with the kit of the block code.
pub applies_to-kit_for :
    (advanced_from : ℕ) (lesson : Lesson)
    → kit_for advanced_from (some lesson)
      ≡ some (if applies_to advanced_from (some lesson) then honeycomb else sensor_45_in_1)
unfolding kit_for applies_to
applies_to-kit_for advanced_from lesson =
    either-test ((if lesson.year == 0 then 2 else lesson.year) == 1)
      (int_lt lesson.grade (pos advanced_from)) honeycomb sensor_45_in_1
