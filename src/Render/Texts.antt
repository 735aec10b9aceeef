-- ===== src/Render/Texts.antt =====
-- internal/render: the texts that kg puts into the objects, line by line.
use kg.Base.{List, [], ◌∷◌, ◌++◌, Text, codes, ◌==◌, if◌then◌else◌}
use kg.Base.Int.{ℤ}
use kg.Base.Strings.{go_quote, print_int}

abbrev concat : List Text → Text
concat [] = []
concat (s ∷ ss) = s ++ concat ss

-- `nodePreflightCommands`
unfoldable pub node_preflight_commands : List Text
node_preflight_commands =
    codes "swapoff -a || true"
    ∷ codes
        "awk 'NR > 1 { print $1 }' /proc/swaps | while read -r area; do swapoff \"$area\" || true; done"
    ∷ codes "if [ -f /etc/fstab ]; then sed -ri 's/^([^#].*\\sswap\\s)/#\\1/' /etc/fstab; fi"
    ∷ (codes "if [ \"$(awk 'NR > 1' /proc/swaps | wc -l)\" -ne 0 ]; then "
        ++ codes "echo 'kg: swap is still active, and kubelet refuses to start with it on. "
        ++ codes "Disable it on this host and retry.' >&2; cat /proc/swaps >&2; exit 1; fi")
    ∷ codes "modprobe overlay 2>/dev/null || true"
    ∷ codes "modprobe br_netfilter 2>/dev/null || true"
    ∷ codes "printf 'overlay\\nbr_netfilter\\n' > /etc/modules-load.d/kgenesis.conf"
    ∷ (codes "test -e /proc/sys/net/bridge/bridge-nf-call-iptables || "
        ++ codes
            "{ echo 'kg: br_netfilter is unavailable, so bridged traffic would bypass kube-proxy. "
        ++ codes "Load the module on this host and retry.' >&2; exit 1; }")
    ∷ codes
        "printf 'net.bridge.bridge-nf-call-iptables=1\\nnet.bridge.bridge-nf-call-ip6tables=1\\nnet.ipv4.ip_forward=1\\n' > /etc/sysctl.d/99-kgenesis.conf"
    ∷ codes "sysctl --system"
    ∷ []

abbrev interface_lines : Text → Text
interface_lines interface =
    if interface == []
    then []
    else codes "    - name: vip_interface\n      value: " ++ go_quote interface ++ codes "\n"

abbrev manifest : Text → ℤ → Text → Text → Text
manifest vip port interface_env version = concat (
    codes "apiVersion: v1\n"
    ∷ codes "kind: Pod\n"
    ∷ codes "metadata:\n"
    ∷ codes "  name: kube-vip\n"
    ∷ codes "  namespace: kube-system\n"
    ∷ codes "spec:\n"
    ∷ codes "  containers:\n"
    ∷ codes "  - name: kube-vip\n"
    ∷ codes "    image: ghcr.io/kube-vip/kube-vip:"
    ∷ version
    ∷ codes "\n"
    ∷ codes "    imagePullPolicy: IfNotPresent\n"
    ∷ codes "    args:\n"
    ∷ codes "    - manager\n"
    ∷ codes "    env:\n"
    ∷ codes "    - name: vip_arp\n"
    ∷ codes "      value: \"true\"\n"
    ∷ codes "    - name: port\n"
    ∷ codes "      value: \""
    ∷ print_int port
    ∷ codes "\"\n"
    ∷ codes "    - name: vip_cidr\n"
    ∷ codes "      value: \"32\"\n"
    ∷ codes "    - name: cp_enable\n"
    ∷ codes "      value: \"true\"\n"
    ∷ codes "    - name: cp_namespace\n"
    ∷ codes "      value: kube-system\n"
    ∷ codes "    - name: vip_ddns\n"
    ∷ codes "      value: \"false\"\n"
    ∷ codes "    - name: svc_enable\n"
    ∷ codes "      value: \"false\"\n"
    ∷ codes "    - name: vip_leaderelection\n"
    ∷ codes "      value: \"true\"\n"
    ∷ codes "    - name: vip_leaseduration\n"
    ∷ codes "      value: \"15\"\n"
    ∷ codes "    - name: vip_renewdeadline\n"
    ∷ codes "      value: \"10\"\n"
    ∷ codes "    - name: vip_retryperiod\n"
    ∷ codes "      value: \"2\"\n"
    ∷ codes "    - name: address\n"
    ∷ codes "      value: "
    ∷ go_quote vip
    ∷ codes "\n"
    ∷ interface_env
    ∷ codes "    securityContext:\n"
    ∷ codes "      capabilities:\n"
    ∷ codes "        add:\n"
    ∷ codes "        - NET_ADMIN\n"
    ∷ codes "        - NET_RAW\n"
    ∷ codes "    volumeMounts:\n"
    ∷ codes "    - mountPath: /etc/kubernetes/admin.conf\n"
    ∷ codes "      name: kubeconfig\n"
    ∷ codes "  hostAliases:\n"
    ∷ codes "  - hostnames:\n"
    ∷ codes "    - kubernetes\n"
    ∷ codes "    ip: 127.0.0.1\n"
    ∷ codes "  hostNetwork: true\n"
    ∷ codes "  volumes:\n"
    ∷ codes "  - hostPath:\n"
    ∷ codes "      path: /etc/kubernetes/admin.conf\n"
    ∷ codes "      type: FileOrCreate\n"
    ∷ codes "    name: kubeconfig\n"
    ∷ [])

-- `kubeVIPManifest`
unfoldable pub kube_vip_manifest : Text → ℤ → Text → Text → Text
kube_vip_manifest vip port interface version = manifest vip port (interface_lines interface) version
