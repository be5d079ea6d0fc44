-- ===== src/Identify/Tests.antt =====
-- Runs of the UID reader.
use test_controller.Base.{◌≡◌, refl, true, false, codes, ◌∷◌, [], arith, ◌<◌, length}
use test_controller.Identify.{
  copy_token, scan, end_run, is_hex, extend_run, identify_received, extract_hex_token, to_upper,
  identify_uart, receive, Uart, mon_buf_sz,
}
use test_controller.Identify.Longest.{identify-Longest, IsToken}

-- A device that prints two candidates, over two reads.
abbrev printing : Uart
printing = record {
  installs = true;
  configures = true;
  reads = codes "id 12ab34cd, uid 00ffee1" ∷ codes "1223 ok" ∷ [];
}

the_longer : (identify_uart 32 printing).out ≡ codes "00FFEE11223"
unfolding identify_uart identify_received receive extract_hex_token copy_token scan end_run is_hex
    extend_run to_upper
the_longer = refl

cut : extract_hex_token 5 [] (codes "uid 00ffee11") ≡ (codes "00FF", 4)
unfolding extract_hex_token copy_token scan end_run is_hex extend_run to_upper
cut = refl

too_short : extract_hex_token 32 [] (codes "uid 00ffee1") ≡ ([], 0)
unfolding extract_hex_token copy_token scan end_run is_hex extend_run to_upper
too_short = refl

identify-Longest_example :
    let buf = receive printing.reads [] in
    let r = identify_uart 32 printing in
    (length buf < mon_buf_sz) × ((r.installed ≡ false) × IsToken 32 [] buf (r.out, r.found))
identify-Longest_example = identify-Longest 32 printing (omega arith) refl refl
