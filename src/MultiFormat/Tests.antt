-- ===== src/MultiFormat/Tests.antt =====
-- The round trip at an address with letters in both cases.
use request_network.Base.{◌≡◌, refl, ok, lower, first_two, drop_two, str_length}
use request_network.MultiFormat.{
  Deserialized, serialize, deserialize, find, any, serialize_group, serialize_format,
  is_serializable_object,
}
use request_network.MultiFormat.Laws.{Restores, deserialize-serialize}

abbrev address : Deserialized
address = record { type = "ethereumAddress"; value = "0xAaaaaaaaaaaaaaaaaaaaaaaaaaaaaaaaaaaaaaaa" }

deserialize-serialize_example :
    (d' : Deserialized) × (deserialize "20aaaaaaaaaaaaaaaaaaaaaaaaaaaaaaaaaaaaaaaa" ≡ ok d')
    × Restores address d'
unfolding serialize find any serialize_group serialize_format is_serializable_object lower first_two
    drop_two str_length
deserialize-serialize_example =
    deserialize-serialize address {s = "20aaaaaaaaaaaaaaaaaaaaaaaaaaaaaaaaaaaaaaaa"} refl
