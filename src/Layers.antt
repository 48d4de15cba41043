-- ===== src/Layers.antt =====
-- include/data_objects.h: the layers of a node, each of which registers a callback.
use rappel.Base.{ℕ, true, false, ◌==◌}

pub data Layer : Type 0 where
  none_layer transport application control driver : Layer

-- The order of the enumeration, by which `map<Layer, …>` is sorted.
abbrev pub layer_key : Layer → ℕ
layer_key none_layer = 0
layer_key transport = 1
layer_key application = 2
layer_key control = 3
layer_key driver = 4

abbrev pub layer_of_key : ℕ → Layer
layer_of_key k = elim (k == 1) [
  | true ↦ transport
  | false ↦ elim (k == 2) [
    | true ↦ application
    | false ↦ elim (k == 3) [
      | true ↦ control
      | false ↦ elim (k == 4) [ true ↦ driver | false ↦ none_layer ]
    ]
  ]
]
