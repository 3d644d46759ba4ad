-- ===== src/RequestLogic/Role.antt =====
-- packages/request-logic/src/role.ts and `getRoleInRequest`, `getRoleInUnsignedAction`.
use request_network.Base.{Option, some, if◌then◌else◌}
use request_network.Types.{Identity, Role, payee, payer, third_party, Request, UnsignedAction}
use request_network.Identity.{are_equal_identities}

-- `parameters.payee && areEqualIdentities(parameters.payee, identity)`, and so for the payer
unfoldable pub get_role : Identity → Option Identity → Option Identity → Role
get_role identity the_payee the_payer =
    if are_equal_identities the_payee (some identity)
    then payee
    else if are_equal_identities the_payer (some identity)
    then payer
    else third_party

unfoldable pub get_role_in_request : Identity → Request → Role
unfolding get_role
get_role_in_request identity request = get_role identity request.payee request.payer

unfoldable pub get_role_in_unsigned_action : Identity → UnsignedAction → Role
unfolding get_role
get_role_in_unsigned_action identity action =
    get_role identity action.parameters.payee action.parameters.payer
