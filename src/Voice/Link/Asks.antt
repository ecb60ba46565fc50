-- ===== src/Voice/Link/Asks.antt =====
-- Whether a step of the websocket of a voice connection starts an operation of a kind.
use ekizu.Prelude.{◌≡◌, refl, Bool, true, false, List, [], ◌∷◌, ◌++◌, if◌then◌else◌, arith}
use ekizu.Voice.Link.{Action, if_set, undefined, on_ws}

unfoldable pub asks : (Action → Bool) → List Action → Bool
asks p [] = false
asks p (a ∷ rest) = if p a then true else asks p rest

pub asks-++ :
    (p : Action → Bool) (xs ys : List Action)
    → asks p xs ≡ false
    → asks p ys ≡ false
    → asks p (xs ++ ys) ≡ false
unfolding asks
asks-++ p [] ys a b = b
asks-++ p (x ∷ xs) ys a b = ground (arith, asks-++ p xs ys)

pub asks-if_set :
    (p : Action → Bool) (b : Bool) (a : Action)
    → asks p (a ∷ []) ≡ false
    → asks p (if_set b a) ≡ false
unfolding if_set asks
asks-if_set p true a h = h
asks-if_set p false a h = refl

pub asks-on_ws :
    (p : Action → Bool) (b : Bool) (a : Action)
    → p undefined ≡ false
    → asks p (a ∷ []) ≡ false
    → asks p (on_ws b a) ≡ false
unfolding on_ws asks
asks-on_ws p true a u h = h
asks-on_ws p false a u h = ground arith
