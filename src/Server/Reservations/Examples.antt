-- ===== src/Server/Reservations/Examples.antt =====
-- The reservation of the blade that stands in a slot.
use sheath.Prelude.{
  ◌≡◌, refl, true, codes, text_eq, all, split_on, parse_number, parse_digits, find_first, itoa,
  print_digits,
}
use sheath.Server.Samples.{fleet}
use sheath.Server.Fleet.{get_rack, get_site, Reservation}
use sheath.Server.Addressing.{blade_ip, rack_index, valid_slot}
use sheath.Server.Reservations.{
  decorate, mac_form, label_rest, host_form, ip_form, valid_reservation, reservation, local_id,
  reservation_for, get_host, sync_dhcp,
}
use sheath.Server.Reservations.Netboot.{planned, sync_dhcp_exact}

sync_dhcp_exact_example :
    get_host (codes "bb") (sync_dhcp 100 fleet).hosts ≡ planned 100 fleet (codes "bb") fleet.blades
unfolding text_eq reservation_for decorate get_rack get_site find_first blade_ip rack_index
    valid_slot local_id reservation itoa print_digits valid_reservation mac_form host_form
    label_rest ip_form all split_on parse_number parse_digits
sync_dhcp_exact_example =
    sync_dhcp_exact 100 fleet (codes "bb") refl ((refl, tt), (tt, tt)) (tt, (refl, tt))

abbrev entry : Reservation
entry = record {
  mac = codes "dc:a6:32:00:00:01";
  bootnet = true;
  host = codes "node";
  ip = codes "10.0.0.102";
}
