-- ===== src/Interpolation/Value.antt =====
-- The decoded documents of cli/compose/interpolation/interpolation.go: the type switch of
-- `recursiveInterpolate` tells `string`, `map[string]any`, `[]any` and all else apart.
use docker_cli.Text.{Text}

-- `O` is what stands under the default case: numbers, Booleans, nil, times. A map is the list of
-- its entries, in the order in which it is walked.
mutual
  pub data Value (O : Type 0) : Type 0 where
    text : Text → Value O
    mapping : Members O → Value O
    list : Items O → Value O
    other : O → Value O

  pub data Members (O : Type 0) : Type 0 where
    no_members : Members O
    member : Text → Value O → Members O → Members O

  pub data Items (O : Type 0) : Type 0 where
    no_items : Items O
    item : Value O → Items O → Items O
