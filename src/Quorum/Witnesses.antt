-- ===== src/Quorum/Witnesses.antt =====
-- The theorems of the quorum at the inputs of Quorum/Examples.
use unison.Base.{◌≡◌, Bool, some, [], ◌∷◌}
use unison.Base.Int.{pos}
use unison.Base.Key.{bytes_key}
use unison.Base.Result.{Result}
use unison.Quorum.{Quorum, Error, stake_required, sign}
use unison.Quorum.Total.{filled, stake_required-exact}
use unison.Quorum.Invariant.{IsValid, sign-IsValid}
use unison.Quorum.Examples.{
  almost, members, members-IsValidSet, nearly, nearly-IsValid, nearly_holds, signature_of,
}

stake_required-exact_example : stake_required members ≡ some (pos 27, filled members)
stake_required-exact_example = stake_required-exact members members-IsValidSet

sign-IsValid_example :
    (r : Result Error Bool) × (q' : Quorum) × (sign (55 ∷ []) (signature_of 3) almost nearly
      ≡ some (r, q'))
    × IsValid 0 q'
sign-IsValid_example =
    sign-IsValid (55 ∷ []) (signature_of 3) almost 0 nearly nearly-IsValid nearly_holds
