-- ===== src/Networks/Tests.antt =====
-- Network lists at concrete inputs.
use ika_pre_alpha.Prelude.{true, none, some, [], ◌∷◌, ok}
use ika_pre_alpha.Prelude.Bytes.{Bytes}
use ika_pre_alpha.Networks.{
  DeployedNetwork, mainnet, sui, NetworkKeyOutputRecord, NetworkKeyOutputRecordReader,
  listed_network_key_record_reader_in,
}
use ika_pre_alpha.Networks.Listed.{IsListedView, listed_network_key_record_reader_in-IsListedView}

abbrev one_key : DeployedNetwork
one_key = record {
  network_keys =
      record {
        noa_public_key = 1 ∷ [];
        dkg_output_digest = 2 ∷ [];
        sui_record_address = 3 ∷ [];
        solana_record_address = 4 ∷ [];
      }
      ∷ [];
  network = 1;
  sui_chain_number = 2;
  solana_chain_number = 1;
}

abbrev its_record : NetworkKeyOutputRecord
its_record = record { digest = 2 ∷ []; proof = 7 ∷ [] }

abbrev chain_reader : NetworkKeyOutputRecordReader
chain_reader = record {
  dkg_record = λ key. ok (some its_record);
  reconfiguration_record = λ key epoch. ok none;
  is_registered_network_key = λ key. ok true;
}

abbrev its_address : Bytes → Bytes
its_address key = 3 ∷ []

listed_network_key_record_reader_in-IsListedView_example :
    IsListedView one_key sui its_address chain_reader
      (listed_network_key_record_reader_in one_key mainnet sui its_address chain_reader)
listed_network_key_record_reader_in-IsListedView_example =
    listed_network_key_record_reader_in-IsListedView one_key sui its_address mainnet chain_reader
