-- ===== src/Internal/Underscore/Tests.antt =====
-- Names in both forms.
use shilohcommunityenterpris.Common.{List, arith, [], ◌∷◌, codes, ◌≡◌, refl}
use shilohcommunityenterpris.Internal.Underscore.{underscore, camel_cased}
use shilohcommunityenterpris.Internal.Underscore.Words.{Word, snake, camel, camel_cased-underscore}

underscored : underscore (codes "UserIDs") ≡ codes "user_i_ds"
unfolding underscore
underscored = refl

cased : camel_cased (codes "user_id") ≡ codes "UserId"
unfolding camel_cased
cased = refl

abbrev user_id : List Word
user_id =
    record { first = b'u'; second = b's'; rest = codes "er" }
    ∷ record { first = b'i'; second = b'd'; rest = [] }
    ∷ []

camel_cased-underscore_example :
    (camel_cased (snake user_id) ≡ camel user_id) × (underscore (camel user_id) ≡ snake user_id)
camel_cased-underscore_example =
    camel_cased-underscore user_id
      (((omega arith), (omega arith), (omega arith)), (((omega arith), (omega arith), tt), tt))

camel_text : camel user_id ≡ codes "UserId"
unfolding camel
camel_text = refl
