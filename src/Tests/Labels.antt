-- ===== src/Tests/Labels.antt =====
-- Labels of a short, a long and a blank text.
use code_code_platform_catal.Prelude.{◌≡◌, refl}
use code_code_platform_catal.Text.{codes}
use code_code_platform_catal.CliRuntime.DnsLabel.{dns_label}
use code_code_platform_catal.CliRuntime.DnsLabel.Laws.{IsLabel, dns_label-IsLabel}

short_test : dns_label (codes " Codex_CLI/") ≡ codes "codex-cli"
unfolding dns_label code_code_platform_catal.Text.trim code_code_platform_catal.Text.is_space
    code_code_platform_catal.CliRuntime.DnsLabel.is_hyphen
    code_code_platform_catal.CliRuntime.DnsLabel.label_byte
    code_code_platform_catal.CliRuntime.DnsLabel.is_label_byte
    code_code_platform_catal.Text.is_lower code_code_platform_catal.Text.lower_byte
    code_code_platform_catal.Text.is_digit code_code_platform_catal.CliRuntime.DnsLabel.shorten
short_test = refl

blank_test : dns_label (codes " -- ") ≡ codes "unknown"
unfolding dns_label code_code_platform_catal.Text.trim code_code_platform_catal.Text.is_space
    code_code_platform_catal.CliRuntime.DnsLabel.is_hyphen
    code_code_platform_catal.CliRuntime.DnsLabel.label_byte
    code_code_platform_catal.CliRuntime.DnsLabel.is_label_byte
    code_code_platform_catal.Text.is_lower code_code_platform_catal.Text.lower_byte
    code_code_platform_catal.Text.is_digit
blank_test = refl

dns_label-IsLabel_example : IsLabel (dns_label (codes "abcdefghijklmnopqrstuvwxyz0123456789abc--z"))
dns_label-IsLabel_example = dns_label-IsLabel (codes "abcdefghijklmnopqrstuvwxyz0123456789abc--z")
