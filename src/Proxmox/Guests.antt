-- ===== src/Proxmox/Guests.antt =====
-- internal/provider/proxmox/client.go: `GetVMIPAddress`, the answer of the guest agent.
use painkiller.Prelude.{
  ℤ, pos, Bool, ◌&&◌, not, Option, none, some, List, [], ◌∷◌, ◌++◌, if◌then◌else◌, Text, codes,
  text_eq, is_empty, decimal_ℤ,
}
use mathlib.Core.Option
use painkiller.Json.{
  Json, Items, nil, cons, null, arr, names, decode_text, decode_int, decode_struct,
}
use painkiller.Proxmox.Wire.{
  Remote, network_interfaces, message, Call, or_wrap, or_raise, ◌>>=◌, do_request,
}
use painkiller.Proxmox.Client.{member, decoded}

pub record Address : Type 0 where
  pub ip_address : Text
  pub prefix_length : ℤ
  pub address_type : Text

pub record Interface : Type 0 where
  pub name : Text
  pub addresses : List Address
  pub hardware_address : Text

decode_address_member : Text → Json → Address → Option Address
decode_address_member key j a =
    if names key (codes "ip-address")
    then Option.map (λ t. record a { ip_address = t }) (decode_text a.ip_address j)
    else if names key (codes "prefix")
    then Option.map (λ n. record a { prefix_length = n }) (decode_int a.prefix_length j)
    else if names key (codes "ip-address-type")
    then Option.map (λ t. record a { address_type = t }) (decode_text a.address_type j)
    else some a

module _ {A : Type 0} (decode : Json → Option A) where
  unfoldable pub decode_items : Items → Option (List A)
  decode_items nil = some []
  decode_items (cons j js) = elim (decode j) [
    | none ↦ none
    | some a ↦ Option.map (λ t. a ∷ t) (decode_items js)
  ]

  -- An array, or null, which empties the field. A field is named once.
  unfoldable pub decode_list : Json → Option (List A)
  unfolding decode_items
  decode_list (arr js) = decode_items js
  decode_list null = some []
  decode_list _ = none

decode_address : Json → Option Address
decode_address =
    decode_struct decode_address_member
      (record { ip_address = []; prefix_length = pos 0; address_type = [] })

decode_interface_member : Text → Json → Interface → Option Interface
decode_interface_member key j i =
    if names key (codes "name")
    then Option.map (λ t. record i { name = t }) (decode_text i.name j)
    else if names key (codes "ip-addresses")
    then Option.map (λ t. record i { addresses = t }) (decode_list decode_address j)
    else if names key (codes "hardware-address")
    then Option.map (λ t. record i { hardware_address = t }) (decode_text i.hardware_address j)
    else some i

decode_interface : Json → Option Interface
decode_interface =
    decode_struct decode_interface_member
      (record { name = []; addresses = []; hardware_address = [] })

-- `{"data": {"result": […]}}`
unfoldable pub decode_interfaces : Json → Option (List Interface)
unfolding decode_interface decode_interface_member decode_address decode_address_member decode_items
    decode_list
decode_interfaces =
    decode_struct
      (member (codes "data") (λ j is.
        decode_struct (member (codes "result") (λ k _. decode_list decode_interface k)) is j))
      []

-- An IPv4 address that is not the loopback's.
abbrev pub is_usable : Address → Bool
is_usable a =
    text_eq a.address_type (codes "ipv4")
    && not (is_empty a.ip_address)
    && not (text_eq a.ip_address (codes "127.0.0.1"))

unfoldable pub first_address : List Address → Option Text
first_address [] = none
first_address (a ∷ t) = if is_usable a then some a.ip_address else first_address t

-- The first usable address of an interface other than `lo`.
unfoldable pub first_ip : List Interface → Option Text
first_ip [] = none
first_ip (i ∷ t) =
    let rest = first_ip t in
    if text_eq i.name (codes "lo")
    then rest
    else elim (first_address i.addresses) [ none ↦ rest | some ip ↦ some ip ]

unfoldable pub get_vm_ip_address : Remote → ℤ → Call Text
get_vm_ip_address r vmid = do
  body ← or_wrap (do_request r (network_interfaces vmid)) (codes "guest agent query failed")
  interfaces ←
      or_raise (decoded decode_interfaces body)
        (message (codes "failed to parse guest agent response"))
  or_raise (first_ip interfaces) (message (codes "no IPv4 address found for VM " ++ decimal_ℤ vmid))
