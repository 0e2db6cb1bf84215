-- ===== src/SessionId/Convert.antt =====
-- Conversions between the enumerations of ids.
use session_cli.Base.{◌≡◌, refl, arith, some}
use session_cli.SessionId.{
  Kind, SessionId, of_kind, IndividualOrGroupId, IndividualOrBlindedId, group_to_session_id,
  group_try_from, blinded_to_session_id, blinded_try_from,
}

-- Every individual or group id is got back from the session id it was turned into.
pub group_try_from-to : (x : IndividualOrGroupId) → group_try_from (group_to_session_id x) ≡ some x
unfolding group_try_from group_to_session_id
group_try_from-to (IndividualOrGroupId.individual id) = refl
group_try_from-to (IndividualOrGroupId.group id) = refl

-- Every individual or blinded id is got back from the session id it was turned into.
pub blinded_try_from-to :
    (x : IndividualOrBlindedId) → blinded_try_from (blinded_to_session_id x) ≡ some x
unfolding blinded_try_from blinded_to_session_id
blinded_try_from-to (IndividualOrBlindedId.individual id) = refl
blinded_try_from-to (IndividualOrBlindedId.blind15 id) = refl
blinded_try_from-to (IndividualOrBlindedId.blind25 id) = refl

-- A session id that both enumerations accept is an individual id.
pub both_individual :
    (s : SessionId) (g : IndividualOrGroupId) (b : IndividualOrBlindedId)
    → group_try_from s ≡ some g
    → blinded_try_from s ≡ some b
    → group_to_session_id g ≡ blinded_to_session_id b
unfolding group_try_from group_to_session_id blinded_try_from blinded_to_session_id
both_individual (of_kind Kind.individual id) g b h k = ground arith
both_individual (of_kind Kind.group id) g b h k = ground arith
both_individual (of_kind Kind.blind15 id) g b h k = ground arith
both_individual (of_kind Kind.blind25 id) g b h k = ground arith
