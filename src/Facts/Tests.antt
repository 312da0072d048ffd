-- ===== src/Facts/Tests.antt =====
-- Fact sets at concrete values.
use trawlarr.Prelude.{◌≡◌, refl, true, false, none, some, [], ◌∷◌, codes, str_eq, str_lt, int_text}
use trawlarr.Facts.{StreamFact, FactSet, default_fact_tolerance, facts_equivalent, facts_hash}
use trawlarr.Facts.Laws.{facts_equivalent_comm}

abbrev video : StreamFact
video = record {
  index = 0;
  codec_type = codes "video";
  codec_name = codes "hevc";
  language = none;
  disposition = some (codes "default");
}

abbrev film : FactSet
film = record {
  container = codes "mkv";
  size_bytes = 10000;
  duration_ms = some 60000;
  width = some 1920;
  height = some 1080;
  streams = video ∷ [];
}

-- One percent larger, and half a second longer.
abbrev remuxed : FactSet
remuxed = record film { size_bytes = 10100; duration_ms = some 60500 }

remux_equivalent : facts_equivalent film remuxed default_fact_tolerance ≡ true
unfolding facts_equivalent str_eq
remux_equivalent = refl

shrunk_not_equivalent :
    facts_equivalent film (record film { size_bytes = 9000 }) default_fact_tolerance ≡ false
unfolding facts_equivalent str_eq
shrunk_not_equivalent = refl

printed :
    facts_hash (λ s. s) (record film { streams = [] })
    ≡ some (
        codes
          "{\"container\":\"mkv\",\"durationMs\":60000,\"height\":1080,\"sizeBytes\":10000,\"streams\":[],\"width\":1920}")
unfolding facts_hash str_lt int_text
printed = refl

facts_equivalent_comm_example :
    facts_equivalent film remuxed default_fact_tolerance
    ≡ facts_equivalent remuxed film default_fact_tolerance
facts_equivalent_comm_example = facts_equivalent_comm film remuxed default_fact_tolerance
