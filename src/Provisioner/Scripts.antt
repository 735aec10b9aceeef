-- ===== src/Provisioner/Scripts.antt =====
-- The scripts of internal/provisioner that run on a host, line by line.
use kg.Base.{List, [], ◌∷◌, ◌++◌, Text, codes}

abbrev concat : List Text → Text
concat [] = []
concat (s ∷ ss) = s ++ concat ss

-- `probeScript`
unfoldable pub probe_script : Text
probe_script = concat (
    codes "\n"
    ∷ codes "echo \"hostname=$(hostname 2>/dev/null || echo)\"\n"
    ∷ codes "echo \"kernel=$(uname -r 2>/dev/null || echo)\"\n"
    ∷ codes "echo \"arch=$(uname -m 2>/dev/null || echo)\"\n"
    ∷ codes "echo \"cpu=$(nproc 2>/dev/null || echo)\"\n"
    ∷ codes "echo \"memkb=$(awk '/^MemTotal:/ {print $2}' /proc/meminfo 2>/dev/null || echo)\"\n"
    ∷ codes "if [ -r /etc/os-release ]; then\n"
    ∷ codes "  . /etc/os-release\n"
    ∷ codes "  echo \"os=${PRETTY_NAME:-${NAME:-}}\"\n"
    ∷ codes "else\n"
    ∷ codes "  echo \"os=\"\n"
    ∷ codes "fi\n"
    ∷ codes "runtime=\n"
    ∷ codes "for candidate in containerd crio dockerd; do\n"
    ∷ codes "  if command -v \"$candidate\" >/dev/null 2>&1; then\n"
    ∷ codes "    # Each of these prints its own name, and around the version whatever else\n"
    ∷ codes "    # it feels like: a source path, a build revision, a trailing comma. The\n"
    ∷ codes "    # last field is not the version - kind's containerd ends its line with a\n"
    ∷ codes "    # git revision - so the first field that reads like one is taken.\n"
    ∷ codes "    #\n"
    ∷ codes "    #   containerd github.com/containerd/containerd/v2 2.2.1        -> 2.2.1\n"
    ∷ codes "    #   containerd github.com/containerd/containerd/v2 v2.1.4 cb107 -> v2.1.4\n"
    ∷ codes "    #   Docker version 24.0.7, build afdd53b                        -> 24.0.7\n"
    ∷ codes "    version=\"$(\"$candidate\" --version 2>/dev/null | head -1 | tr ' ' '\\n' |\n"
    ∷ codes "      sed 's/[,;]$//' | grep -m1 -E '^v?[0-9]+\\.[0-9]+' || true)\"\n"
    ∷ codes "    runtime=\"$candidate ${version}\"\n"
    ∷ codes "    break\n"
    ∷ codes "  fi\n"
    ∷ codes "done\n"
    ∷ codes "echo \"runtime=${runtime}\"\n"
    ∷ codes "echo \"kubeadm=$(kubeadm version -o short 2>/dev/null || echo)\"\n"
    ∷ [])

-- The script of `Reset` before and behind the state directory.
unfoldable pub reset_head : Text
reset_head = concat (
    codes "#!/usr/bin/env bash\n"
    ∷ codes "# Generated by kg. Undoes a kubeadm bootstrap so the host can be reused.\n"
    ∷ codes "set -uo pipefail\n"
    ∷ codes "\n"
    ∷ codes "# kube-vip puts the control plane VIP on an interface itself, and kubeadm reset\n"
    ∷ codes "# knows nothing about it. The address has to be read before reset removes the\n"
    ∷ codes "# static pod that names it. Left behind, this host keeps answering for an\n"
    ∷ codes "# endpoint it no longer serves, and the next node joining through that VIP\n"
    ∷ codes "# reaches this one instead of the control plane.\n"
    ∷ codes "vip=\n"
    ∷ codes "if [ -f /etc/kubernetes/manifests/kube-vip.yaml ]; then\n"
    ∷ codes
        "  vip=\"$(awk '/name: address/ { getline; gsub(/[\"[:space:]]/, \"\", $0); sub(/^value:/, \"\", $0); print; exit }' \\\n"
    ∷ codes "    /etc/kubernetes/manifests/kube-vip.yaml)\"\n"
    ∷ codes "fi\n"
    ∷ codes "\n"
    ∷ codes "if command -v kubeadm >/dev/null 2>&1; then\n"
    ∷ codes "  # The last etcd member can wait for a quorum that is already gone.\n"
    ∷ codes "  # Reserve time for local cleanup even when kubeadm cannot finish.\n"
    ∷ codes "  timeout --kill-after=5s 60s kubeadm reset --force || true\n"
    ∷ codes "fi\n"
    ∷ codes "\n"
    ∷ codes "if [ -n \"${vip}\" ] && command -v ip >/dev/null 2>&1; then\n"
    ∷ codes "  ip -o -4 addr show | awk -v vip=\"${vip}\" '$4 ~ \"^\"vip\"/\" { print $2, $4 }' |\n"
    ∷ codes "    while read -r iface addr; do\n"
    ∷ codes "      ip addr del \"${addr}\" dev \"${iface}\" 2>/dev/null || true\n"
    ∷ codes "    done\n"
    ∷ codes "fi\n"
    ∷ codes "\n"
    ∷ codes "systemctl stop kubelet 2>/dev/null || true\n"
    ∷ codes "\n"
    ∷ codes "if command -v crictl >/dev/null 2>&1; then\n"
    ∷ codes "  crictl rm --force --all 2>/dev/null || true\n"
    ∷ codes "fi\n"
    ∷ codes "\n"
    ∷ codes "if command -v ip >/dev/null 2>&1; then\n"
    ∷ codes "  for link in cni0 flannel.1 kube-ipvs0 cilium_host cilium_net cilium_vxlan; do\n"
    ∷ codes "    ip link delete \"${link}\" 2>/dev/null || true\n"
    ∷ codes "  done\n"
    ∷ codes "fi\n"
    ∷ codes "\n"
    ∷ codes "rm -rf /etc/cni/net.d /var/lib/cni /etc/kubernetes /var/lib/etcd\n"
    ∷ codes "# An interrupted kubeadm reset can leave client certificates from the old CA.\n"
    ∷ codes "# Never let a new join reuse that identity. Do not traverse pod volume mounts.\n"
    ∷ codes "rm -rf /var/lib/kubelet/pki\n"
    ∷ codes "rm -f /var/lib/kubelet/config.yaml /var/lib/kubelet/kubeadm-flags.env\n"
    ∷ codes "rm -f /var/lib/kubelet/instance-config.yaml\n"
    ∷ codes "rm -rf /run/kubeadm /run/cluster-api\n"
    ∷ codes "rm -rf "
    ∷ [])

unfoldable pub reset_tail : Text
reset_tail = concat (
    codes "\n"
    ∷ codes "\n"
    ∷ codes "if command -v iptables >/dev/null 2>&1; then\n"
    ∷ codes "  iptables -F 2>/dev/null || true\n"
    ∷ codes "  iptables -t nat -F 2>/dev/null || true\n"
    ∷ codes "  iptables -t mangle -F 2>/dev/null || true\n"
    ∷ codes "fi\n"
    ∷ codes "\n"
    ∷ codes "exit 0\n"
    ∷ [])
